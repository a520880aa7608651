-- ===== src/Update/Run/Statuses.antt =====
-- What the status of an update says of its error and of the database.
use Prim.Native.String.{String}
use transiter.Base.{
  Bool, Bool-cases, List, Option, [], ap, arith, false, inl, inr, length, nat_keys, none, refl,
  some, string_keys, true, ℕ, ◌%◌, ◌↔◌, ◌∷◌, ◌≡◌, ◌≢◌,
}
use transiter.Base.Int.{int32_of_uint32, int_keys}
use transiter.Update.Config.{FeedConfig, normalize_feed_config}
use transiter.Update.Run.{
  Attempt, Calls, Feed, FeedUpdate, Outcome, Status, commit, failure, get_feed_content,
  is_known_type, is_unchanged, mark_failure, mark_in_transaction, mark_success, run, run_config,
  run_content, run_download, skipped, success, updated, write_parsed,
}

module _ (c : Calls) (feed : Feed) (force : Bool) (d : c.Database) where
  abbrev pub is_success : Status → Bool
  is_success updated = true
  is_success skipped = true
  is_success _ = false

  -- The mark of a success with the hash of the content was the last write.
  abbrev pub IsMarked : Option String → c.Database → Type 0
  IsMarked none after = ⊥
  IsMarked (some hash) after =
      (before : c.Database) × (c.mark_successful_update feed.pk hash before ≡ success after)

  -- The content has the hash of the last update, and the update is not forced.
  abbrev pub IsSame : Option String → Type 0
  IsSame hash = (hash ≢ none) × (feed.last_content_hash ≡ hash) × (force ≡ false)

  abbrev pub StatusHolds : Status → Outcome c → Type 0
  StatusHolds updated o = IsMarked o.feed_update.content_hash o.database
  StatusHolds skipped o = (o.database ≡ d) × IsSame o.feed_update.content_hash
  StatusHolds _ o = (o.database ≡ d) × (o.feed_update.error_message ≡ o.error) × (o.error ≢ none)

  abbrev pub IsExplained : Outcome c → Type 0
  IsExplained o =
      StatusHolds o.feed_update.status o
      × ((o.error ≡ none) ↔ (is_success o.feed_update.status ≡ true))

  mark_in_transaction-last :
      (hash : String) (r : Attempt c.Database) (after : c.Database)
      → mark_in_transaction c feed hash r ≡ success after
      → IsMarked (some hash) after
  mark_in_transaction-last hash (failure e) after h = absurd (cc h)
  mark_in_transaction-last hash (success before) after h = (before, h)

  commit-IsExplained :
      (hash : String) (u : FeedUpdate c.Float) (r : Attempt c.Database)
      → u.content_hash ≡ some hash
      → ((after : c.Database) → r ≡ success after → IsMarked (some hash) after)
      → IsExplained (commit c u d r)
  unfolding mark_failure mark_success
  commit-IsExplained hash u (failure e) same marked =
      ((refl, refl, λ n. cc n), (λ n. absurd (cc n), λ n. absurd (cc n)))
  commit-IsExplained hash u (success after) same marked =
      (rw same (marked after refl), (λ n. refl, λ n. refl))

  write_parsed-IsExplained :
      (fc : FeedConfig c.Float) (hash : String) (u : FeedUpdate c.Float) (r : Attempt c.Data)
      → u.content_hash ≡ some hash
      → IsExplained (write_parsed c feed fc hash u d r)
  unfolding write_parsed
  write_parsed-IsExplained fc hash u (failure e) same =
      ((refl, refl, λ n. cc n), (λ n. absurd (cc n), λ n. absurd (cc n)))
  write_parsed-IsExplained fc hash u (success parsed) same =
      commit-IsExplained hash u (mark_in_transaction c feed hash (c.update_data feed fc parsed d))
        same (mark_in_transaction-last hash (c.update_data feed fc parsed d))

  is_unchanged-IsSame :
      (last : Option String) (hash : String)
      → is_unchanged c last hash force ≡ true
      → (last ≡ some hash) × (force ≡ false)
  unfolding is_unchanged
  is_unchanged-IsSame none hash h = absurd (cc h)
  is_unchanged-IsSame (some last) hash h =
      let same : last ≡ hash = ground (arith, string_keys.same_iff last hash) in
      (ap some same, ground arith)

  run_content-IsExplained :
      (fc : FeedConfig c.Float) (u : FeedUpdate c.Float) (content : List ℕ)
      → IsExplained (run_content c feed force fc u d content)
  unfolding run_content
  run_content-IsExplained fc u [] =
      ((refl, refl, λ n. cc n), (λ n. absurd (cc n), λ n. absurd (cc n)))
  run_content-IsExplained fc u (b ∷ bs) =
      let hash = c.hash_bytes (b ∷ bs) in
      elim (Bool-cases (is_unchanged c feed.last_content_hash hash force)) [
        | inl same ↦
            let (last, free) = is_unchanged-IsSame feed.last_content_hash hash same in
            rw same ((refl, ((λ n. cc n), last, free)), (λ n. refl, λ n. refl))
        | inr other ↦ elim (Bool-cases (is_known_type c fc.feed_type)) [
          | inl known ↦
              rw (other, known)
                (write_parsed-IsExplained fc hash
                  (record u {
                    content_length = some (int32_of_uint32 (length (b ∷ bs) % 4_294_967_296));
                    content_hash = some hash;
                  })
                  (c.parse fc.feed_type (b ∷ bs)) refl)
          | inr strange ↦
              rw (other, strange)
                ((refl, refl, λ n. cc n), (λ n. absurd (cc n), λ n. absurd (cc n)))
        ]
      ]

  run_download-IsExplained :
      (fc : FeedConfig c.Float) (u : FeedUpdate c.Float) (r : Attempt (List ℕ))
      → IsExplained (run_download c feed force fc u d r)
  unfolding mark_failure
  run_download-IsExplained fc u (failure e) =
      ((refl, refl, λ n. cc n), (λ n. absurd (cc n), λ n. absurd (cc n)))
  run_download-IsExplained fc u (success content) = run_content-IsExplained fc u content

  run_config-IsExplained :
      (r : Attempt (FeedConfig c.Float)) → IsExplained (run_config c feed force d r)
  unfolding mark_failure
  run_config-IsExplained (failure e) =
      ((refl, refl, λ n. cc n), (λ n. absurd (cc n), λ n. absurd (cc n)))
  run_config-IsExplained (success config) =
      let fc = normalize_feed_config config in
      run_download-IsExplained fc _ (get_feed_content c fc).0

  -- An update returns no error exactly where its status is UPDATED or SKIPPED. It is UPDATED where
  -- the last write was the mark of a success with the hash of the content; SKIPPED where nothing was
  -- written, the content has the hash of the last update and the update is not forced; and with each
  -- other status nothing was written, and the error is the message of the update.
  pub run-IsExplained : IsExplained (run c feed force d)
  unfolding run
  run-IsExplained = run_config-IsExplained (c.unmarshal feed.config)
