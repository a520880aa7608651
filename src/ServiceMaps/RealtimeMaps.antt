-- ===== src/ServiceMaps/RealtimeMaps.antt =====
-- The realtime service maps: `getTripStopPks`, `buildRealtimeMapEdges` and the stops that
-- `UpdateRealtimeMaps` collects.
pub mod Runs
use transiter.Base.{
  Bool, List, Option, [], contains, false, if◌then◌else◌, nat_keys, none, some, string_keys, suc,
  true, ℕ, ◌%◌, ◌++◌, ◌==◌, ◌∷◌,
}
use transiter.Base.Int.{int32_of_uint32, int_keys, negsuc, ℤ}
use transiter.Base.Maps.{Map, insert, keys, lookup}
use transiter.Graph.Types.{Edge, edge_keys}
use transiter.ServiceMaps.Reverse.{reverse_slice}

-- db.ListStopPksForRealtimeMapRow
pub record TripStopRow : Type 0 where
  pub trip_pk : ℤ
  pub direction_id : Bool
  pub stop_pk : ℕ

-- The variables of `getTripStopPks`.
pub record TripStops : Type 0 where
  pub current_trip_pk : ℤ
  pub current_direction_id : Bool
  pub current_stop_pks : List ℕ
  pub result : List (List ℕ)

abbrev pub in_direction : Bool → List ℕ → List ℕ
in_direction true pks = pks
in_direction false pks = reverse_slice pks

-- `updateResult`
unfoldable pub update_result : TripStops → TripStops
unfolding reverse_slice
update_result t = elim t.current_stop_pks [
  | [] ↦ t
  | pk ∷ pks ↦ record t {
    result = t.result ++ in_direction t.current_direction_id (pk ∷ pks) ∷ [];
    current_stop_pks = [];
  }
]

-- One pass of the loop over the rows.
unfoldable pub add_row : TripStops → TripStopRow → TripStops
unfolding update_result
add_row t row =
    let before = if row.trip_pk == t.current_trip_pk then t else update_result t in
    record before {
      current_trip_pk = row.trip_pk;
      current_direction_id = row.direction_id;
      current_stop_pks = before.current_stop_pks ++ row.stop_pk ∷ [];
    }

unfoldable pub add_rows : TripStops → List TripStopRow → TripStops
unfolding add_row
add_rows t [] = t
add_rows t (row ∷ rows) = add_rows (add_row t row) rows

abbrev pub no_trip_stops : TripStops
no_trip_stops = record {
  current_trip_pk = negsuc 0;
  current_direction_id = false;
  current_stop_pks = [];
  result = [];
}

-- The stops of each trip, by the rows that the query gives.
unfoldable pub get_trip_stop_pks : List TripStopRow → List (List ℕ)
unfolding add_rows update_result
get_trip_stop_pks rows = (update_result (add_rows no_trip_stops rows)).result

-- `stopPkToStationPk[stopPk]` is 0 for a stop that the map does not have.
abbrev pub station_or_zero : Option ℕ → ℕ
station_or_zero none = 0
station_or_zero (some pk) = pk

unfoldable pub add_trip_edges : Map ℕ ℕ → Map Edge Bool → List ℕ → Map Edge Bool
add_trip_edges stations m [] = m
add_trip_edges stations m (a ∷ []) = m
add_trip_edges stations m (a ∷ b ∷ pks) =
    add_trip_edges stations
      (insert
        (record {
          from_label = station_or_zero (lookup a stations);
          to_label = station_or_zero (lookup b stations);
        })
        true m)
      (b ∷ pks)

unfoldable pub add_all_edges : Map ℕ ℕ → Map Edge Bool → List (List ℕ) → Map Edge Bool
unfolding add_trip_edges
add_all_edges stations m [] = m
add_all_edges stations m (pks ∷ trips) =
    add_all_edges stations (add_trip_edges stations m pks) trips

unfoldable pub build_realtime_map_edges : List (List ℕ) → Map ℕ ℕ → Map Edge Bool
unfolding add_all_edges
build_realtime_map_edges trip_stop_pks stop_pk_to_station_pk =
    add_all_edges stop_pk_to_station_pk [] trip_stop_pks

-- The stops of all trips, each once.
unfoldable pub all_stop_pks : List ℕ → Map ℕ Bool → List ℕ
all_stop_pks [] stop_pks_seen = []
all_stop_pks (pk ∷ pks) stop_pks_seen =
    let skipped_pk = all_stop_pks pks stop_pks_seen in
    let kept_pks = pk ∷ all_stop_pks pks (insert pk true stop_pks_seen) in
    if contains (keys stop_pks_seen) pk then skipped_pk else kept_pks

-- db.InsertServiceMapStopParams
pub record ServiceMapStop : Type 0 where
  pub map_pk : ℕ
  pub stop_pk : ℕ
  pub position : ℤ

-- The rows of `persistMap`, from a position on.
unfoldable pub map_stops : ℕ → ℕ → List ℕ → List ServiceMapStop
map_stops map_pk i [] = []
map_stops map_pk i (pk ∷ pks) =
    record { map_pk = map_pk; stop_pk = pk; position = int32_of_uint32 (i % 4_294_967_296) }
    ∷ map_stops map_pk (suc i) pks

-- The queries of `persistMap`, none where one fails.
pub record MapQueries (Database : Type 0) : Type 0 where
  pub delete_service_map : ℕ → ℕ → Database → Option Database
  pub insert_service_map : ℕ → ℕ → Database → Option (ℕ × Database)
  pub insert_service_map_stops : List ServiceMapStop → Database → Option Database

module _ {Database : Type 0} (q : MapQueries Database) where
  abbrev pub insert_stops : List ℕ → Option (ℕ × Database) → Option Database
  insert_stops stop_pks none = none
  insert_stops stop_pks (some (map_pk, d)) =
      q.insert_service_map_stops (map_stops map_pk 0 stop_pks) d

  abbrev pub insert_map : ℕ → ℕ → List ℕ → Option Database → Option Database
  insert_map config_pk route_pk stop_pks none = none
  insert_map config_pk route_pk stop_pks (some d) =
      insert_stops stop_pks (q.insert_service_map config_pk route_pk d)

  unfoldable pub persist_map : ℕ → ℕ → List ℕ → Database → Option Database
  unfolding map_stops
  persist_map config_pk route_pk stop_pks d =
      insert_map config_pk route_pk stop_pks (q.delete_service_map config_pk route_pk d)
