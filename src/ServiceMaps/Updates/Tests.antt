-- ===== src/ServiceMaps/Updates/Tests.antt =====
-- The theorem on `UpdateRealtimeMaps` at a small system.
use Prim.{tt}
use transiter.Base.{
  Bool-cases, List, Option, [], ap, arith, false, if◌then◌else◌, inl, inr, nat_keys, nat_same_iff,
  none, refl, some, string_keys, sym, true, ℕ, ◌&&◌, ◌*◌, ◌==◌, ◌∷◌, ◌≡◌,
}
use transiter.Base.Int.{int_keys, pos}
use transiter.Base.Maps.{insert, lookup}
use transiter.Graph.Sort.{sort_basic}
use transiter.Graph.Types.{new_graph, num_nodes}
use transiter.NyctSubway.Rules.{some_injective}
use transiter.ServiceMaps.BuildMap.{build_map}
use transiter.ServiceMaps.RealtimeMaps.{build_realtime_map_edges, get_trip_stop_pks, persist_map}
use transiter.ServiceMaps.RealtimeMaps.Runs.{Run, all_rows, stops_of_runs}
use transiter.ServiceMaps.Types.{GoLib, ServiceMapConfig, realtime}
use transiter.ServiceMaps.Updates.{
  UpdateQueries, configs_of, list_configs_in_system, persist_realtime, stations_of_rows,
  update_realtime_maps, update_route_map, update_route_maps,
}
use transiter.ServiceMaps.Updates.Links.{all_links}
use transiter.ServiceMaps.Updates.Routes.{WritesOrder, update_route_map-WritesOrder}
use transiter.ServiceMaps.Updates.Written.{MapLaws, Replaces, ServiceMap, rows_of_map}

abbrev float_lib : GoLib
float_lib = record {
  Float = ℕ;
  float_of_int = λ n. n;
  float_mul = λ a b. a * b;
  float_lt = λ a b. false;
  hours = λ h. pos (h * 3_600_000_000_000);
  to_lower = λ s. s;
  sprintf_key = λ pk. "-";
}

abbrev realtime_config : ServiceMapConfig ℕ
realtime_config = record {
  id = "realtime";
  source = realtime;
  threshold = 0;
  static_options = none;
}

-- The route 1 has the trips 7 8 and 8 9, and the route 2 has 7 8 and 8 7.
abbrev runs : ℕ → List Run
runs route_pk =
    record { trip_pk = pos 1; direction_id = true; first_stop = 7; other_stops = 8 ∷ [] }
    ∷ record {
      trip_pk = pos 2;
      direction_id = true;
      first_stop = 8;
      other_stops = (if route_pk == 1 then 9 else 7) ∷ [];
    }
    ∷ []

abbrev stations : List (ℕ × ℕ)
stations = (7, 70) ∷ (8, 80) ∷ (9, 90) ∷ []

-- The database is the map of the configuration 4 and the route 1, which has the primary key 1.
abbrev queries : UpdateQueries (Option ServiceMap)
queries = record {
  list_configs = λ d. some ((4, "{}") ∷ []);
  list_stop_stations = λ d. some [];
  list_stations = λ d pks. some stations;
  list_stop_pks_for_realtime_map = λ d route_pk. some (all_rows (runs route_pk));
  maps = record {
    delete_service_map =
        λ config_pk route_pk d. if config_pk == 4 && route_pk == 1 then some none else none;
    insert_service_map =
        λ config_pk route_pk d. if config_pk == 4 && route_pk == 1 then some (1, d) else none;
    insert_service_map_stops = λ new d. some (some (rows_of_map 1 new));
  };
}

abbrev stored : Option ServiceMap → ℕ → ℕ → Option ServiceMap
stored d config_pk route_pk = if config_pk == 4 && route_pk == 1 then d else none

stored-Replaces :
    (d after : Option ServiceMap) (config_pk route_pk : ℕ)
    → (config_pk == 4 && route_pk == 1) ≡ true
    → Replaces stored d after (λ c. config_pk == c) route_pk after
stored-Replaces d after config_pk route_pk is_it c r = ground (
  arith,
  nat_same_iff config_pk 4,
  nat_same_iff route_pk 1,
  nat_same_iff config_pk c,
  nat_same_iff route_pk r,
  nat_same_iff c 4,
  nat_same_iff r 1,
)

is_the_map :
    {A : Type 0} (config_pk route_pk : ℕ) (yes_is result : A)
    → (if config_pk == 4 && route_pk == 1 then some yes_is else none) ≡ some result
    → ((config_pk == 4 && route_pk == 1) ≡ true) × (yes_is ≡ result)
is_the_map config_pk route_pk yes_is result e =
    elim (Bool-cases (config_pk == 4 && route_pk == 1)) [
      | inl same ↦ (same, some_injective (rw same at e))
      | inr other ↦ absurd (cc (rw other at e))
    ]

queries-MapLaws : MapLaws queries.maps stored
queries-MapLaws = record {
  deletes = λ d after config_pk route_pk e.
      let (same, gone) = is_the_map config_pk route_pk none after e in
      rw (sym gone) (stored-Replaces d none config_pk route_pk same);
  fills = λ d created after config_pk route_pk map_pk rows e filled.
      let (same, made) = is_the_map config_pk route_pk (1, d) (map_pk, created) e in
      let first : 1 ≡ map_pk = ap (λ p. p.0) made in
      rw (sym (some_injective filled), sym first)
        (stored-Replaces d (some (rows_of_map 1 rows)) config_pk route_pk same);
}

-- The map of the first route is written, and that of the second stays.
update_realtime_maps-two_routes :
    update_realtime_maps float_lib (λ bytes. some realtime_config) queries (1 ∷ 2 ∷ []) none
    ≡ some (some ((pos 0, 70) ∷ (pos 1, 80) ∷ (pos 2, 90) ∷ []))
unfolding update_realtime_maps update_route_maps update_route_map persist_realtime persist_map
    list_configs_in_system configs_of get_trip_stop_pks build_realtime_map_edges build_map
    sort_basic new_graph num_nodes lookup insert stations_of_rows
update_realtime_maps-two_routes = refl

update_route_map-WritesOrder_example :
    WritesOrder float_lib
      (λ bytes. some realtime_config)
      queries
      stored
      ((4, realtime_config) ∷ [])
      1
      none
      (all_links (stations_of_rows stations []) (stops_of_runs (runs 1)))
      (update_route_map float_lib
        (λ bytes. some realtime_config)
        queries
        ((4, realtime_config) ∷ [])
        1
        none)
update_route_map-WritesOrder_example =
    update_route_map-WritesOrder float_lib (λ bytes. some realtime_config) queries stored
      queries-MapLaws ((4, realtime_config) ∷ []) 1 none (runs 1) stations (refl, (refl, tt)) refl
      refl
