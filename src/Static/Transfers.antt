-- ===== src/Static/Transfers.antt =====
-- `updateTransfers` of internal/update/static/static.go.
use Prim.{tt}
use Prim.Native.String.{String}
use transiter.Base.{
  Bool, Bool-cases, List, Option, Option-cases, [], arith, contains, false, if◌then◌else◌, inl, inr,
  nat_keys, none, refl, some, string_keys, ℕ, ◌&&◌, ◌==◌, ◌||◌, ◌∷◌, ◌≡◌,
}
use transiter.Base.Int.{int_keys, ℤ}
use transiter.Base.Maps.{Map, lookup}
use transiter.Static.TransferId.{transfer_id, transfer_id-injective}

-- gtfs.Transfer, with the text of its type.
pub record Transfer : Type 0 where
  pub from_id : String
  pub to_id : String
  pub transfer_type : String
  pub min_transfer_time : Option ℤ

-- db.InsertTransferParams
pub record InsertTransfer : Type 0 where
  pub id : String
  pub system_pk : ℕ
  pub feed_pk : ℕ
  pub from_stop_pk : ℕ
  pub to_stop_pk : ℕ
  pub transfer_type : String
  pub min_transfer_time : Option ℤ

module _ (system_pk feed_pk : ℕ) (stop_id_to_pk : Map String ℕ) where
  unfoldable pub insert_transfer_params : Transfer → ℕ → ℕ → InsertTransfer
  unfolding transfer_id
  insert_transfer_params t from_pk to_pk = record {
    id = transfer_id t.from_id t.to_id;
    system_pk = system_pk;
    feed_pk = feed_pk;
    from_stop_pk = from_pk;
    to_stop_pk = to_pk;
    transfer_type = t.transfer_type;
    min_transfer_time = t.min_transfer_time;
  }

  -- The row of a transfer, none where the code goes on with the next one.
  unfoldable pub transfer_row : Transfer → Option InsertTransfer
  unfolding insert_transfer_params
  transfer_row t = elim (lookup t.from_id stop_id_to_pk) [
    | none ↦ none
    | some from_pk ↦ elim (lookup t.to_id stop_id_to_pk) [
      | none ↦ none
      | some to_pk ↦ some (insert_transfer_params t from_pk to_pk)
    ]
  ]

  module _ {Database : Type 0} (insert_transfer : InsertTransfer → Database → Option Database) where
    -- The loop; a query that fails gives `none`.
    unfoldable pub insert_transfers : List Transfer → Database → Option Database
    unfolding transfer_row
    insert_transfers [] d = some d
    insert_transfers (t ∷ ts) d = elim (transfer_row t) [
      | none ↦ insert_transfers ts d
      | some row ↦ elim (insert_transfer row d) [ none ↦ none | some d' ↦ insert_transfers ts d' ]
    ]

    unfoldable pub update_transfers :
        (ℕ → Database → Option Database) → List Transfer → Database → Option Database
    unfolding insert_transfers
    update_transfers delete_transfers transfers d = elim (delete_transfers feed_pk d) [
      | none ↦ none
      | some d' ↦ insert_transfers transfers d'
    ]

  -- A transfer of the list is between the same stops.
  abbrev pub has_pair : Transfer → List Transfer → Bool
  has_pair t [] = false
  has_pair t (u ∷ us) = (u.from_id == t.from_id && u.to_id == t.to_id) || has_pair t us

  -- At most one transfer for each pair of stops.
  abbrev pub DistinctPairs : List Transfer → Type 0
  DistinctPairs [] = Unit
  DistinctPairs (t ∷ ts) = (has_pair t ts ≡ false) × DistinctPairs ts

  -- A table of IDs that refuses an ID that it has, as the database does.
  unfoldable pub insert_unique : InsertTransfer → List String → Option (List String)
  insert_unique row table = if contains table row.id then none else some (row.id ∷ table)

  -- No transfer of the list gets an ID of the table.
  abbrev pub Fresh : List String → List Transfer → Type 0
  Fresh table [] = Unit
  Fresh table (t ∷ ts) = (contains table (transfer_id t.from_id t.to_id) ≡ false) × Fresh table ts

  same_id-same_pair :
      (t u : Transfer)
      → (u.from_id == t.from_id && u.to_id == t.to_id) ≡ false
      → (transfer_id t.from_id t.to_id == transfer_id u.from_id u.to_id) ≡ false
  same_id-same_pair t u different =
      elim (Bool-cases (transfer_id t.from_id t.to_id == transfer_id u.from_id u.to_id)) [
        | inl same ↦
            let (from_same, to_same) = transfer_id-injective t.from_id t.to_id u.from_id u.to_id (
              (string_keys.same_iff (transfer_id t.from_id t.to_id)
                  (transfer_id u.from_id u.to_id)).0
                same) in
            ground (
              arith,
              string_keys.same_iff u.from_id t.from_id,
              string_keys.same_iff u.to_id t.to_id,
            )
        | inr other ↦ other
      ]

  Fresh-cons :
      (t : Transfer) (table : List String) (ts : List Transfer)
      → has_pair t ts ≡ false
      → Fresh table ts
      → Fresh (transfer_id t.from_id t.to_id ∷ table) ts
  Fresh-cons t table [] alone fresh = tt
  Fresh-cons t table (u ∷ us) alone fresh = (
    ground (arith, fresh.0, same_id-same_pair t u (ground arith)),
    Fresh-cons t table us (ground arith) fresh.1,
  )

  insert_transfers-succeeds :
      (table : List String) (ts : List Transfer)
      → DistinctPairs ts
      → Fresh table ts
      → (after : List String) × (insert_transfers insert_unique ts table ≡ some after)
  unfolding insert_transfers insert_unique transfer_row insert_transfer_params
  insert_transfers-succeeds table [] distinct fresh = (table, refl)
  insert_transfers-succeeds table (t ∷ ts) distinct fresh =
      let skip = insert_transfers-succeeds table ts distinct.1 fresh.1 in
      elim (Option-cases (lookup t.from_id stop_id_to_pk)) [
        | inl no_from ↦ (skip.0, ground (arith, skip.1))
        | inr (from_pk, from_known) ↦ elim (Option-cases (lookup t.to_id stop_id_to_pk)) [
          | inl no_to ↦ (skip.0, ground (arith, skip.1))
          | inr (to_pk, to_known) ↦
              let rest =
                insert_transfers-succeeds (transfer_id t.from_id t.to_id ∷ table) ts distinct.1
                  (Fresh-cons t table ts distinct.0 fresh.1) in
              (rest.0, ground (arith, fresh.0, rest.1))
        ]
      ]

  Fresh-nil : (ts : List Transfer) → Fresh [] ts
  Fresh-nil [] = tt
  Fresh-nil (t ∷ ts) = (refl, Fresh-nil ts)

  -- With at most one transfer for each pair of stops, an update of transfers into an empty table
  -- that refuses a second row with the same ID succeeds.
  pub update_transfers-succeeds :
      (transfers : List Transfer) (table : List String)
      → DistinctPairs transfers
      → (after : List String) × (update_transfers insert_unique
            (λ feed_pk rows. some [])
            transfers
            table
          ≡ some after)
  unfolding update_transfers
  update_transfers-succeeds transfers table distinct =
      insert_transfers-succeeds [] transfers distinct (Fresh-nil transfers)
