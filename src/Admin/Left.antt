-- ===== src/Admin/Left.antt =====
-- Which feeds upsertSystemMetadata of internal/admin/admin.go deletes.
use Prim.Native.String.{String}
use mathlib.Core.Path.{subst}
use transiter.Base.{
  List, Option-cases, [], ap, arith, contains, if◌then◌else◌, inl, inr, map, nat_keys, none, some,
  string_keys, sym, true, ℕ, ◌==◌, ◌∷◌, ◌≡◌,
}
use transiter.Admin.Feeds.{FeedQueries, NewFeed, write_feeds}
use transiter.Base.Int.{int_keys}
use transiter.Base.Maps.{Map, delete, lookup, lookup-delete}

module _ {Db Configs : Type 0} (f : FeedQueries Db Configs) where
  -- When the loop over the new feeds succeeds, the feeds that are left to be deleted are exactly
  -- those of the system whose ID no new feed has, with their primary keys.
  pub write_feeds-left :
      (system_pk : ℕ) (feeds : List NewFeed) (old left : Map String ℕ) (db after : Db) (id : String)
      (wrote : write_feeds f system_pk feeds old db ≡ some (left, after))
      → lookup id left ≡ (if contains (map (λ n. n.id) feeds) id then none else lookup id old)
  unfolding write_feeds
  write_feeds-left system_pk [] old left db after id wrote =
      let same : old ≡ left = ground (arith, wrote) in ap (lookup id) (sym same)
  write_feeds-left system_pk (n ∷ feeds) old left db after id wrote = elim (Option-cases n.json) [
    | inl nothing ↦ absurd (cc (rw (nothing, write_feeds) at wrote))
    | inr (json, marshalled) ↦ elim (Option-cases (lookup n.id old)) [
      | inl new ↦ ground (
        arith,
        write_feeds-left system_pk feeds old left (f.insert_feed db n.id system_pk json) after id
            (rw (marshalled, new, write_feeds) at wrote),
        missing new,
      )
      | inr (feed_pk, known) ↦ elim (Option-cases (f.update_feed db feed_pk json)) [
        | inl fails ↦ absurd (cc (rw (marshalled, known, fails, write_feeds) at wrote))
        | inr (changed, e) ↦ ground (
          arith,
          write_feeds-left system_pk feeds (delete n.id old) left changed after id
              (rw (marshalled, known, e, write_feeds) at wrote),
          lookup-delete n.id id old,
        )
      ]
    ]
  ]
    where
      missing : lookup n.id old ≡ none → (n.id == id) ≡ true → lookup id old ≡ none
      missing new same =
          subst (λ k. lookup k old ≡ none) ((string_keys.same_iff n.id id).0 same) new
