-- ===== src/Database/Wrappers.antt =====
-- MapStopIDToPkInSystem, MapRouteIDToPkInSystem and MapTripIDToPkInSystem of
-- internal/db/dbwrappers/dbwrappers.go: the primary keys of the entities with given IDs.
use Prim.Native.String.{String}
use transiter.Base.{Bool, List, Option, [], false, nat_keys, none, some, string_keys, true, ℕ, ◌∷◌}
use transiter.Base.Int.{int_keys}
use transiter.Base.Maps.{Map, insert}
use transiter.Realtime.Alerts.Partition.{ids}

-- The rows of the query: IDs with their primary keys. A later row overwrites an earlier one.
unfoldable pub pks_of_rows : List (String × ℕ) → Map String ℕ → Map String ℕ
pks_of_rows [] m = m
pks_of_rows ((id, pk) ∷ rest) m = pks_of_rows rest (insert id pk m)

abbrev pub pks_of_query : Option (List (String × ℕ)) → Option (Map String ℕ)
unfolding pks_of_rows
pks_of_query none = none
pks_of_query (some listed) = some (pks_of_rows listed [])

-- The query takes whether to filter by ID, and the IDs; it is not sent for an empty list of IDs.
unfoldable pub map_id_to_pk_in_system :
    (Bool → List String → Option (List (String × ℕ))) → Option (List String) → Option (Map String ℕ)
unfolding pks_of_query
map_id_to_pk_in_system query none = pks_of_query (query false [])
map_id_to_pk_in_system query (some []) = some []
map_id_to_pk_in_system query (some (id ∷ ids)) = pks_of_query (query true (id ∷ ids))
