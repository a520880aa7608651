-- ===== src/ServiceMaps/Updates.antt =====
-- `ListConfigsInSystem`, `UpdateStaticMaps` and `UpdateRealtimeMaps` of
-- internal/servicemaps/servicemaps.go, with the maps from stops to stations of
-- internal/db/dbwrappers/dbwrappers.go: the service maps of a system are built and written.
pub mod Links
pub mod Written
pub mod Routes
mod Tests
use Prim.Native.String.{String}
use transiter.Base.{
  Bool, Comparable, List, Option, [], false, if◌then◌else◌, nat_keys, none, some, string_keys, true,
  ℕ, ◌++◌, ◌∷◌,
}
use transiter.Base.Int.{int_keys}
use transiter.Base.Maps.{Map, insert}
use transiter.Graph.Sort.{SortResult, err_graph_not_sortable, out_of_fuel, sorted}
use transiter.ServiceMaps.BuildMap.{build_map}
use transiter.ServiceMaps.RealtimeMaps.{
  MapQueries, TripStopRow, all_stop_pks, build_realtime_map_edges, get_trip_stop_pks, persist_map,
}
use transiter.ServiceMaps.StaticMaps.{build_static_maps}
use transiter.ServiceMaps.Types.{GoLib, ScheduledTrip, ServiceMapConfig, Source, realtime, static}

infixl 5 ◌>>=◌
abbrev ◌>>=◌ : {A B : Type 0} → Option A → (A → Option B) → Option B
none >>= f = none
some a >>= f = f a

-- MapStopIDToStationPk and MapStopPkToStationPk, on the rows of their query.
unfoldable pub stations_of_rows {ℓ} :
    {K : Type ℓ} ⦃e : Comparable K⦄ → List (K × ℕ) → Map K ℕ → Map K ℕ
stations_of_rows [] m = m
stations_of_rows ((stop, station_pk) ∷ rows) m = stations_of_rows rows (insert stop station_pk m)

unfoldable pub all_stops_of_trips : List (List ℕ) → List ℕ
all_stops_of_trips [] = []
all_stops_of_trips (pks ∷ trips) = pks ++ all_stops_of_trips trips

abbrev pub same_source : Source → Source → Bool
same_source static static = true
same_source realtime realtime = true
same_source _ _ = false

-- The queries, none where one fails; a configuration is listed with the bytes of its row.
pub record UpdateQueries (Database : Type 0) : Type 0 where
  pub list_configs : Database → Option (List (ℕ × String))
  pub list_stop_stations : Database → Option (List (String × ℕ))
  pub list_stations : Database → List ℕ → Option (List (ℕ × ℕ))
  pub list_stop_pks_for_realtime_map : Database → ℕ → Option (List TripStopRow)
  pub maps : MapQueries Database

-- `unmarshal` is protojson.Unmarshal.
module _ (lib : GoLib) (unmarshal : String → Option (ServiceMapConfig lib.Float))
    {Database : Type 0} (q : UpdateQueries Database) where
  -- `configs[source]`: the configurations that can be read, with their primary keys.
  unfoldable pub configs_of : Source → List (ℕ × String) → List (ℕ × ServiceMapConfig lib.Float)
  configs_of source [] = []
  configs_of source ((pk, bytes) ∷ raw) =
      let rest = configs_of source raw in
      elim (unmarshal bytes) [
        | none ↦ rest
        | some smc ↦ if same_source smc.source source then (pk, smc) ∷ rest else rest
      ]

  unfoldable pub list_configs_in_system :
      Source → Database → Option (List (ℕ × ServiceMapConfig lib.Float))
  unfolding configs_of
  list_configs_in_system source d = do raw ← q.list_configs d; some (configs_of source raw)

  -- The maps of one static configuration.
  unfoldable pub persist_static : ℕ → Map ℕ (List ℕ) → Database → Option Database
  persist_static config_pk [] d = some d
  persist_static config_pk ((route_pk, stop_pks) ∷ rest) d = do
    next ← persist_map q.maps config_pk route_pk stop_pks d
    persist_static config_pk rest next

  unfoldable pub update_static_configs :
      Map String ℕ
      → Map String ℕ
      → List ScheduledTrip
      → List (ℕ × ServiceMapConfig lib.Float)
      → Database
      → Option Database
  unfolding persist_static
  update_static_configs route_id_to_pk stations trips [] d = some d
  update_static_configs route_id_to_pk stations trips ((pk, smc) ∷ rest) d = do
    next ← persist_static pk (build_static_maps lib smc route_id_to_pk stations trips) d
    update_static_configs route_id_to_pk stations trips rest next

  unfoldable pub update_static_maps : Map String ℕ → List ScheduledTrip → Database → Option Database
  unfolding update_static_configs list_configs_in_system
  update_static_maps route_id_to_pk trips d = do
    smcs ← list_configs_in_system static d
    rows ← q.list_stop_stations d
    update_static_configs route_id_to_pk (stations_of_rows rows []) trips smcs d

  -- The last loop over the realtime configurations.
  unfoldable pub persist_realtime :
      List (ℕ × ServiceMapConfig lib.Float) → ℕ → List ℕ → Database → Option Database
  persist_realtime [] route_pk stop_pks d = some d
  persist_realtime ((pk, smc) ∷ rest) route_pk stop_pks d = do
    next ← persist_map q.maps pk route_pk stop_pks d
    persist_realtime rest route_pk stop_pks next

  -- A route whose edges cannot be sorted keeps its maps.
  abbrev pub persist_sorted :
      List (ℕ × ServiceMapConfig lib.Float) → ℕ → SortResult → Database → Option Database
  persist_sorted smcs route_pk (sorted stop_pks) d = persist_realtime smcs route_pk stop_pks d
  persist_sorted smcs route_pk err_graph_not_sortable d = some d
  persist_sorted smcs route_pk out_of_fuel d = some d

  -- One pass of the loop over the routes.
  unfoldable pub update_route_map :
      List (ℕ × ServiceMapConfig lib.Float) → ℕ → Database → Option Database
  unfolding get_trip_stop_pks all_stops_of_trips
  update_route_map smcs route_pk d = do
    rows ← q.list_stop_pks_for_realtime_map d route_pk
    let trips = get_trip_stop_pks rows
    stations ← q.list_stations d (all_stop_pks (all_stops_of_trips trips) [])
    persist_sorted smcs route_pk
        (build_map (build_realtime_map_edges trips (stations_of_rows stations []))) d

  unfoldable pub update_route_maps :
      List (ℕ × ServiceMapConfig lib.Float) → List ℕ → Database → Option Database
  unfolding update_route_map
  update_route_maps smcs [] d = some d
  update_route_maps smcs (route_pk ∷ route_pks) d = do
    next ← update_route_map smcs route_pk d
    update_route_maps smcs route_pks next

  unfoldable pub update_realtime_maps : List ℕ → Database → Option Database
  unfolding update_route_maps list_configs_in_system
  update_realtime_maps route_pks d = do
    smcs ← list_configs_in_system realtime d
    update_route_maps smcs route_pks d
