-- ===== src/Static/Upsert/PrimaryKeys.antt =====
-- The map from IDs to primary keys that an update of agencies, routes or stops returns.
use Prim.Native.String.{String}
use mathlib.Core.Path.{subst}
use transiter.Base.{
  Bool, Bool-cases, List, Option, Option-cases, [], ap, arith, contains, false, if◌then◌else◌, inl,
  inr, map, nat_keys, none, not, refl, some, string_keys, true, ℕ, ◌&&◌, ◌==◌, ◌||◌, ◌∷◌, ◌≡◌,
}
use transiter.Base.Int.{int_keys}
use transiter.Base.Maps.{
  Map, contains-keys-insert, contains-keys_of_lookup, insert, keys, lookup, lookup-insert,
}
use transiter.Realtime.Alerts.Partition.{ids}
use transiter.Realtime.Trips.{inserted}
use transiter.Static.Rows.{
  Agency, AgencyColumns, Route, RouteColumns, Stop, StopColumns, agency_columns, stop_columns,
}
use transiter.Static.Upsert.{
  Queries, delete_rest, map_values, remember, route_columns_in, then_parents, update_agencies,
  update_parents, update_routes, update_stops, upsert_from, upsert_rows, write_row,
}

-- The IDs of the rows that have columns.
abbrev pub kept_ids : {A C : Type 0} → (A → String) → (A → Option C) → List A → List String
kept_ids id_of columns_of [] = []
kept_ids id_of columns_of (row ∷ rows) =
    let rest = kept_ids id_of columns_of rows in
    elim (columns_of row) [ none ↦ rest | some columns ↦ id_of row ∷ rest ]

-- A map has exactly some IDs, and those that were there before keep their primary keys.
abbrev pub Keeps : List String → Map String ℕ → Map String ℕ → Type 0
Keeps ids old new =
    (k : String)
    → (contains (keys new) k ≡ contains ids k)
      × ((pk : ℕ) → lookup k old ≡ some pk → contains ids k ≡ true → lookup k new ≡ some pk)

module _ {Columns Database : Type 0} (q : Queries Columns Database) (system_pk feed_pk : ℕ) where
  write_row-pk :
      (old : Map String ℕ) (id : String) (columns : Columns) (d d' : Database) (pk pk' : ℕ)
      → write_row q system_pk feed_pk old id columns d ≡ some (pk', d')
      → lookup id old ≡ some pk
      → pk' ≡ pk
  unfolding write_row
  write_row-pk old id columns d d' pk pk' e known =
      elim (Option-cases (q.update_row pk columns d)) [
        | inl fails ↦ absurd (cc (rw (known, fails, write_row) at e))
        | inr (after, works) ↦ cc (rw (known, works, write_row) at e)
      ]

  module _ {A : Type 0} (remembers : Bool) (id_of : A → String)
      (columns_of : A → Option Columns) where
    remember-known :
        (old : Map String ℕ) (id k : String) (pk pk' : ℕ)
        → lookup k old ≡ some pk
        → lookup k (remember q system_pk feed_pk remembers id pk' old) ≡ some pk
    remember-known old id k pk pk' known =
        elim (Bool-cases (remembers && not (contains (keys old) id))) [
          | inl inserted ↦ rw inserted (
              ground (
                arith,
                string_keys.same_iff id k,
                lookup-insert id k pk' old,
                contains-keys_of_lookup k old known,
              ))
          | inr kept ↦ rw kept known
        ]

    abbrev Left : String → List A → Map String ℕ → Map String ℕ → Map String ℕ → Type 0
    Left k rows old new new' =
        (contains (keys new') k
          ≡ (contains (kept_ids id_of columns_of rows) k || contains (keys new) k))
        × ((pk : ℕ)
            → lookup k old ≡ some pk
            → lookup k new'
              ≡ (if contains (kept_ids id_of columns_of rows) k then some pk else lookup k new))

    upsert_rows-Left :
        (k : String) (rows : List A) (old new new' : Map String ℕ) (d d' : Database)
        → upsert_rows q system_pk feed_pk remembers id_of columns_of old new rows d
          ≡ some (new', d')
        → Left k rows old new new'
    unfolding upsert_rows
    upsert_rows-Left k [] old new new' d d' e =
        let same : new ≡ new' = cc e in (rw same refl, λ pk known. rw same refl)
    upsert_rows-Left k (row ∷ rows) old new new' d d' e = elim (Option-cases (columns_of row)) [
      | inl unknown_columns ↦
          let later =
            upsert_rows-Left k rows old new new' d d' (rw (unknown_columns, upsert_rows) at e) in
          (ground (arith, later.0), λ pk known. ground (arith, later.1 pk known))
      | inr (columns, given) ↦
          elim (Option-cases (write_row q system_pk feed_pk old (id_of row) columns d)) [
            | inl fails ↦ absurd (cc (rw (given, fails, upsert_rows) at e))
            | inr ((pk', after), works) ↦
                let later =
                  upsert_rows-Left k rows
                    (remember q system_pk feed_pk remembers (id_of row) pk' old)
                    (insert (id_of row) pk' new) new' after d'
                    (rw (given, works, upsert_rows) at e) in
                (
                  ground (arith, later.0, contains-keys-insert (id_of row) k pk' new),
                  λ pk known.
                      let rest = later.1 pk (remember-known old (id_of row) k pk pk' known) in
                      elim (Bool-cases (id_of row == k)) [
                        | inl same ↦
                            let at_id : lookup (id_of row) old ≡ some pk =
                              ground (arith, string_keys.same_iff (id_of row) k) in
                            ground (
                              arith,
                              rest,
                              lookup-insert (id_of row) k pk' new,
                              write_row-pk old (id_of row) columns d after pk pk' works at_id,
                            )
                        | inr other ↦ ground (arith, rest, lookup-insert (id_of row) k pk' new)
                      ],
                )
          ]
    ]

    upsert_from-Keeps :
        (old new : Map String ℕ) (rows : List A) (d d' : Database)
        → upsert_from q system_pk feed_pk remembers id_of columns_of (some old) rows d
          ≡ some (new, d')
        → Keeps (kept_ids id_of columns_of rows) old new
    upsert_from-Keeps old new rows d d' e k =
        elim (Option-cases
          (upsert_rows q system_pk feed_pk remembers id_of columns_of old [] rows d)) [
            | inl fails ↦ absurd (cc (rw fails at e))
            | inr ((new'', after), works) ↦
                elim (Option-cases (q.delete_stale feed_pk (map_values new'') after)) [
                  | inl stale ↦ absurd (cc (rw (works, stale, delete_rest) at e))
                  | inr (last, deleted) ↦
                      let same : new'' ≡ new = cc (rw (works, deleted, delete_rest) at e) in
                      let left = rw same at (upsert_rows-Left k rows old [] new'' d after works) in
                      (ground (arith, left.0), λ pk known has. ground (arith, left.1 pk known))
                ]
          ]

module _ {Database : Type 0} (system_pk feed_pk : ℕ) (d d' : Database)
    (old new : Map String ℕ) where
  -- An update of agencies that succeeds returns a primary key for exactly the agencies of the feed,
  -- and the agencies that the system had keep theirs.
  update_agencies-Keeps :
      (q : Queries AgencyColumns Database) (agencies : List Agency)
      → q.ids_to_pks system_pk d ≡ some old
      → update_agencies q system_pk feed_pk agencies d ≡ some (new, d')
      → Keeps (map (λ (a : Agency). a.id) agencies) old new
  unfolding update_agencies
  update_agencies-Keeps q agencies had e =
      subst (λ ids. Keeps ids old new) (all_kept agencies)
        (upsert_from-Keeps q system_pk feed_pk true (λ a. a.id)
          (λ a. some (agency_columns feed_pk a)) old new agencies d d' (rw had at e))
    where
      all_kept :
          (rows : List Agency)
          → kept_ids (λ (a : Agency). a.id) (λ a. some (agency_columns feed_pk a)) rows
            ≡ map (λ (a : Agency). a.id) rows
      all_kept [] = refl
      all_kept (row ∷ rows) = ap (row.id ∷◌) (all_kept rows)

  -- An update of routes that succeeds returns a primary key for exactly the routes of the feed whose
  -- agency it has, and of these the routes that the system had keep theirs.
  update_routes-Keeps :
      (q : Queries RouteColumns Database) (agency_id_to_pk : Map String ℕ) (routes : List Route)
      → q.ids_to_pks system_pk d ≡ some old
      → update_routes q system_pk feed_pk agency_id_to_pk routes d ≡ some (new, d')
      → Keeps
          (kept_ids (λ (r : Route). r.id) (route_columns_in agency_id_to_pk feed_pk) routes)
          old
          new
  unfolding update_routes
  update_routes-Keeps q agency_id_to_pk routes had e =
      upsert_from-Keeps q system_pk feed_pk false (λ r. r.id)
        (route_columns_in agency_id_to_pk feed_pk) old new routes d d' (rw had at e)

  -- An update of stops that succeeds, parents included, returns a primary key for exactly the stops
  -- of the feed, and the stops that the system had keep theirs.
  pub update_stops-Keeps :
      {L : Type 0} (update_parent : ℕ → ℕ → Database → Option Database)
      (q : Queries (StopColumns L) Database) (use_accessibility_info : Bool) (stops : List (Stop L))
      → q.ids_to_pks system_pk d ≡ some old
      → update_stops update_parent q system_pk feed_pk use_accessibility_info stops d
        ≡ some (new, d')
      → Keeps (map (λ (s : Stop L). s.id) stops) old new
  unfolding update_stops
  update_stops-Keeps {L} update_parent q use_info stops had e =
      let from = rw had at e in
      elim (Option-cases (
        upsert_from q system_pk feed_pk false (λ (s : Stop L). s.id)
          (λ s. some (stop_columns feed_pk use_info s)) (some old) stops d)) [
            | inl fails ↦ absurd (cc (rw (fails, then_parents) at from))
            | inr ((new', after), works) ↦
                elim (Option-cases (update_parents update_parent new' stops after)) [
                  | inl no_parents ↦ absurd (cc (rw (works, no_parents, then_parents) at from))
                  | inr (last, parents) ↦
                      let same : new' ≡ new = cc (rw (works, parents, then_parents) at from) in
                      subst (λ m. Keeps (map (λ (s : Stop L). s.id) stops) old m) same
                        (subst (λ ids. Keeps ids old new') (all_kept stops)
                          (upsert_from-Keeps q system_pk feed_pk false (λ s. s.id)
                            (λ s. some (stop_columns feed_pk use_info s)) old new' stops d after
                            works))
                ]
          ]
    where
      all_kept :
          (rows : List (Stop L))
          → kept_ids (λ (s : Stop L). s.id) (λ s. some (stop_columns feed_pk use_info s)) rows
            ≡ map (λ (s : Stop L). s.id) rows
      all_kept [] = refl
      all_kept (row ∷ rows) = ap (row.id ∷◌) (all_kept rows)
