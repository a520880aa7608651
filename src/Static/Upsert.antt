-- ===== src/Static/Upsert.antt =====
-- `updateAgencies`, `updateRoutes` and `updateStops` of internal/update/static/static.go. A query
-- that fails gives `none`, and then the update of the feed fails.
pub mod PrimaryKeys
use Prim.Native.String.{String}
use transiter.Base.{
  Bool, List, Option, [], contains, false, if◌then◌else◌, nat_keys, none, not, some, string_keys,
  true, ℕ, ◌&&◌, ◌∷◌,
}
use transiter.Base.Int.{int_keys}
use transiter.Base.Maps.{Map, insert, keys, lookup}
use transiter.Static.Rows.{
  Agency, AgencyColumns, Route, RouteColumns, Stop, StopColumns, agency_columns, route_columns,
  stop_columns,
}

-- The queries on a kind of row that has the columns `Columns`.
pub record Queries (Columns : Type 0) (Database : Type 0) : Type 0 where
  pub ids_to_pks : ℕ → Database → Option (Map String ℕ)
  pub update_row : ℕ → Columns → Database → Option Database
  pub insert_row : ℕ → String → Columns → Database → Option (ℕ × Database)
  pub delete_stale : ℕ → List ℕ → Database → Option Database

-- common.MapValues
unfoldable pub map_values : {K V : Type 0} → Map K V → List V
map_values [] = []
map_values ((k, v) ∷ m) = v ∷ map_values m

module _ {Columns Database : Type 0} (q : Queries Columns Database) (system_pk feed_pk : ℕ) where
  -- The branch on `pk, ok := oldIDToPk[row.Id]`.
  unfoldable pub write_row : Map String ℕ → String → Columns → Database → Option (ℕ × Database)
  write_row old id columns d = elim (lookup id old) [
    | none ↦ q.insert_row system_pk id columns d
    | some pk ↦ elim (q.update_row pk columns d) [ none ↦ none | some d' ↦ some (pk, d') ]
  ]

  -- `oldIDToPk[agency.Id] = pk`, which only `updateAgencies` does, where it inserts.
  abbrev pub remember : Bool → String → ℕ → Map String ℕ → Map String ℕ
  remember remembers id pk old =
      if remembers && not (contains (keys old) id) then insert id pk old else old

  module _ {A : Type 0} (remembers : Bool) (id_of : A → String)
      (columns_of : A → Option Columns) where
    -- The loop over the rows. A row without columns is skipped.
    unfoldable pub upsert_rows :
        Map String ℕ → Map String ℕ → List A → Database → Option (Map String ℕ × Database)
    unfolding write_row
    upsert_rows old new [] d = some (new, d)
    upsert_rows old new (row ∷ rows) d = elim (columns_of row) [
      | none ↦ upsert_rows old new rows d
      | some columns ↦ elim (write_row old (id_of row) columns d) [
        | none ↦ none
        | some (pk, d') ↦
            upsert_rows (remember remembers (id_of row) pk old) (insert (id_of row) pk new) rows d'
      ]
    ]

    abbrev pub delete_rest : Option (Map String ℕ × Database) → Option (Map String ℕ × Database)
    delete_rest none = none
    delete_rest (some (new, d)) = elim (q.delete_stale feed_pk (map_values new) d) [
      | none ↦ none
      | some d' ↦ some (new, d')
    ]

    abbrev pub upsert_from :
        Option (Map String ℕ) → List A → Database → Option (Map String ℕ × Database)
    upsert_from none rows d = none
    upsert_from (some old) rows d = delete_rest (upsert_rows old [] rows d)

-- The columns of a route, none if its agency is not one of the feed's.
unfoldable pub route_columns_in : Map String ℕ → ℕ → Route → Option RouteColumns
unfolding route_columns
route_columns_in agency_id_to_pk feed_pk route = elim (lookup route.agency_id agency_id_to_pk) [
  | none ↦ none
  | some agency_pk ↦ some (route_columns feed_pk agency_pk route)
]

-- `newIDToPk[stop.Id]` is 0 for an ID that it does not have.
abbrev pub pk_or_zero : Option ℕ → ℕ
pk_or_zero none = 0
pk_or_zero (some pk) = pk

abbrev pub parent_pk : Map String ℕ → Option String → Option ℕ
parent_pk new none = none
parent_pk new (some id) = lookup id new

module _ {Database : Type 0} where
  unfoldable pub update_agencies :
      Queries AgencyColumns Database
      → ℕ
      → ℕ
      → List Agency
      → Database
      → Option (Map String ℕ × Database)
  unfolding upsert_rows map_values agency_columns
  update_agencies q system_pk feed_pk agencies d =
      upsert_from q system_pk feed_pk true (λ a. a.id) (λ a. some (agency_columns feed_pk a))
        (q.ids_to_pks system_pk d) agencies d

  unfoldable pub update_routes :
      Queries RouteColumns Database
      → ℕ
      → ℕ
      → Map String ℕ
      → List Route
      → Database
      → Option (Map String ℕ × Database)
  unfolding upsert_rows map_values route_columns_in
  update_routes q system_pk feed_pk agency_id_to_pk routes d =
      upsert_from q system_pk feed_pk false (λ r. r.id) (route_columns_in agency_id_to_pk feed_pk)
        (q.ids_to_pks system_pk d) routes d

  module _ {L : Type 0} (update_parent : ℕ → ℕ → Database → Option Database) where
    -- The second loop of `updateStops`.
    unfoldable pub update_parents : Map String ℕ → List (Stop L) → Database → Option Database
    update_parents new [] d = some d
    update_parents new (stop ∷ stops) d = elim (parent_pk new stop.parent) [
      | none ↦ update_parents new stops d
      | some parent ↦ elim (update_parent (pk_or_zero (lookup stop.id new)) parent d) [
        | none ↦ none
        | some d' ↦ update_parents new stops d'
      ]
    ]

    abbrev pub then_parents :
        List (Stop L) → Option (Map String ℕ × Database) → Option (Map String ℕ × Database)
    then_parents stops none = none
    then_parents stops (some (new, d)) = elim (update_parents new stops d) [
      | none ↦ none
      | some d' ↦ some (new, d')
    ]

    unfoldable pub update_stops :
        Queries (StopColumns L) Database
        → ℕ
        → ℕ
        → Bool
        → List (Stop L)
        → Database
        → Option (Map String ℕ × Database)
    unfolding upsert_rows map_values stop_columns update_parents
    update_stops q system_pk feed_pk use_accessibility_info stops d = then_parents stops (
        upsert_from q system_pk feed_pk false (λ s. s.id)
          (λ s. some (stop_columns feed_pk use_accessibility_info s)) (q.ids_to_pks system_pk d)
          stops d)
