-- ===== src/ServiceMaps/Tests.antt =====
-- The theorems on service maps at small feeds.
use Prim.{tt}
use Prim.Native.Char.{Char, code}
use Prim.Native.String.{String, ◌++◌ as str_append}
use mathlib.Core.List.{reverse}
use text.Mathlib.TextLemmas.{cons-append, nil-append}
use transiter.Base.{
  Bool, List, [], ap, arith, contains, false, if◌then◌else◌, ltb, map, nat_keys, none, refl, some,
  string_keys, suc, true, zero, ℕ, ◌*◌, ◌+◌, ◌==◌, ◌↔◌, ◌∷◌, ◌≡◌,
}
use transiter.Base.Int.{int_keys, pos}
use transiter.Base.Maps.{Map, delete, insert, insert_each, keys, lookup}
use transiter.Graph.Sort.{sort_basic}
use transiter.Graph.Sort.Correct.{Sorts}
use transiter.Graph.Types.{edge_keys, new_graph, num_nodes}
use transiter.ServiceMaps.BuildMap.{build_map, build_map-Sorts}
use transiter.ServiceMaps.Configs.{
  ConfigQueries, NewConfig, update_config, write_config, write_configs, write_configs-lookup,
}
use transiter.ServiceMaps.Days.{
  build_included_service_ids, first_allowed, first_service, holds, include_service, mark_running,
  week,
}
use transiter.ServiceMaps.Days.Correct.{build_included_service_ids_lem}
use transiter.ServiceMaps.Included.{IsIncluded, is_included_trip, is_included_trip_iff}
use transiter.ServiceMaps.RealtimeMaps.{get_trip_stop_pks}
use transiter.ServiceMaps.RealtimeMaps.Runs.{Run, all_rows, get_trip_stop_pks_lem}
use transiter.ServiceMaps.Reverse.{reverse_slice, reverse_slice_lem}
use transiter.ServiceMaps.StaticMaps.{build_static_maps, count_at, count_trips, counts_at}
use transiter.ServiceMaps.StaticMaps.Counts.{count-count_trips, how_many}
use transiter.ServiceMaps.TripKey.{calculate_trip_key, trip_edges}
use transiter.ServiceMaps.TripKey.SameKey.{IsNonempty, IsPrefixFree, same_key_same_edges}
use transiter.ServiceMaps.Types.{
  GoLib, ScheduledTrip, Service, ServiceMapConfig, StaticOptions, StopTime, direction_false,
  direction_true, static,
}

-- A library whose hours are whole and whose keys are written in unary.
abbrev unary : ℕ → String
unary zero = String.◌∷◌ "-" String.[]
unary (suc n) = String.◌∷◌ "1" (unary n)

abbrev test_lib : GoLib
test_lib = record {
  Float = ℕ;
  float_of_int = λ n. n;
  float_mul = λ a b. a * b;
  float_lt = ltb;
  hours = λ h. pos (h * 3_600_000_000_000);
  to_lower = λ s. if s == "Monday" then "monday" else s;
  sprintf_key = unary;
}

unary-IsNonempty : IsNonempty unary
unary-IsNonempty zero s h = cc (cons-append "-" String.[] s)
unary-IsNonempty (suc a) s h = cc (cons-append "1" (unary a) s)

unary-IsPrefixFree : IsPrefixFree unary
unary-IsPrefixFree zero zero s t h = (
  refl,
  cc (cons-append "-" String.[] s, cons-append "-" String.[] t, nil-append s, nil-append t),
)
unary-IsPrefixFree zero (suc b) s t h =
    let char : ◌≡◌ {A = Char} "-" "1" =
      cc (cons-append "-" String.[] s, cons-append "1" (unary b) t) in
    absurd (omega (arith, ap code char))
unary-IsPrefixFree (suc a) zero s t h =
    let char : ◌≡◌ {A = Char} "1" "-" =
      cc (cons-append "1" (unary a) s, cons-append "-" String.[] t) in
    absurd (omega (arith, ap code char))
unary-IsPrefixFree (suc a) (suc b) s t h =
    let rest : str_append (unary a) s ≡ str_append (unary b) t =
      cc (cons-append "1" (unary a) s, cons-append "1" (unary b) t) in
    let (same, tails) = unary-IsPrefixFree a b s t rest in (ap suc same, tails)

abbrev weekday_service : Service
weekday_service = record {
  id = "weekday";
  monday = true;
  tuesday = true;
  wednesday = true;
  thursday = true;
  friday = true;
  saturday = false;
  sunday = false;
}

abbrev stop_at : String → ℕ → StopTime
stop_at id time = record { stop_id = id; arrival_time = pos time }

abbrev northbound : ScheduledTrip
northbound = record {
  route_id = "A";
  service = weekday_service;
  direction_id = direction_true;
  stop_times = stop_at "south" 10 ∷ stop_at "middle" 20 ∷ stop_at "north" 30 ∷ [];
}

abbrev southbound : ScheduledTrip
southbound = record northbound {
  direction_id = direction_false;
  stop_times = stop_at "north" 40 ∷ stop_at "middle" 50 ∷ stop_at "south" 60 ∷ [];
}

abbrev test_stations : Map String ℕ
test_stations = ("south", 1) ∷ ("middle", 2) ∷ ("north", 3) ∷ []

abbrev test_routes : Map String ℕ
test_routes = ("A", 7) ∷ []

abbrev test_options : StaticOptions ℕ
test_options = record {
  starts_earlier_than = some 1;
  starts_later_than = none;
  ends_earlier_than = none;
  ends_later_than = none;
  days = "Monday" ∷ [];
}

abbrev test_config : ServiceMapConfig ℕ
test_config = record {
  id = "weekday";
  source = static;
  threshold = 0;
  static_options = some test_options;
}

abbrev test_included : Map String Bool
test_included = ("weekday", true) ∷ []

static_map_runs :
    build_static_maps test_lib test_config test_routes test_stations (northbound ∷ southbound ∷ [])
    ≡ (7, 1 ∷ 2 ∷ 3 ∷ []) ∷ []
unfolding build_static_maps build_map calculate_trip_key trip_edges is_included_trip
    build_included_service_ids include_service mark_running week sort_basic new_graph num_nodes
    lookup insert insert_each
static_map_runs = refl

same_key :
    calculate_trip_key test_lib northbound test_stations
    ≡ calculate_trip_key test_lib southbound test_stations
unfolding calculate_trip_key lookup
same_key = refl

same_key_same_edges_example :
    contains (trip_edges test_stations northbound) (record { from_label = 1; to_label = 2 })
    ≡ contains (trip_edges test_stations southbound) (record { from_label = 1; to_label = 2 })
same_key_same_edges_example =
    same_key_same_edges test_lib test_stations northbound southbound
      (record { from_label = 1; to_label = 2 }) unary-IsPrefixFree unary-IsNonempty (λ e. cc)
      (λ e. cc) (refl, (refl, (refl, tt))) (refl, (refl, (refl, tt))) same_key

count-count_trips_example :
    count_at
      (counts_at
        (count_trips test_lib test_config test_routes test_stations test_included
          (record { key_counts = []; key_to_edges = [] })
          (northbound ∷ southbound ∷ [])).key_counts
        7)
      (calculate_trip_key test_lib northbound test_stations)
    ≡ how_many test_lib test_config test_routes test_stations test_included 7
        (calculate_trip_key test_lib northbound test_stations)
        (northbound ∷ southbound ∷ [])
      + count_at (counts_at [] 7) (calculate_trip_key test_lib northbound test_stations)
count-count_trips_example =
    count-count_trips test_lib test_config test_routes test_stations test_included
      (record { key_counts = []; key_to_edges = [] }) (northbound ∷ southbound ∷ []) 7
      (calculate_trip_key test_lib northbound test_stations)

is_included_trip_iff_example :
    (is_included_trip test_lib test_config northbound test_included ≡ true)
    ↔ IsIncluded test_lib test_options northbound test_included
is_included_trip_iff_example = is_included_trip_iff test_lib test_config northbound test_included

build_included_service_ids_example :
    holds (build_included_service_ids test_lib test_config (northbound ∷ [])) "weekday"
    ≡ first_allowed ("monday" ∷ []) (first_service "weekday" (northbound ∷ []))
build_included_service_ids_example =
    build_included_service_ids_lem test_lib test_config (northbound ∷ []) "weekday"

reverse_slice_example : reverse_slice {A = ℕ} (1 ∷ 2 ∷ 3 ∷ []) ≡ reverse (1 ∷ 2 ∷ 3 ∷ [])
reverse_slice_example = reverse_slice_lem (1 ∷ 2 ∷ 3 ∷ [])

build_map-Sorts_example :
    Sorts
      (keys ((record { from_label = 1; to_label = 2 }, true) ∷ []))
      (build_map ((record { from_label = 1; to_label = 2 }, true) ∷ []))
build_map-Sorts_example = build_map-Sorts ((record { from_label = 1; to_label = 2 }, true) ∷ [])

abbrev two_runs : List Run
two_runs =
    record { trip_pk = pos 5; direction_id = true; first_stop = 1; other_stops = 2 ∷ [] }
    ∷ record { trip_pk = pos 6; direction_id = false; first_stop = 2; other_stops = 1 ∷ 3 ∷ [] }
    ∷ []

get_trip_stop_pks_lem_example :
    get_trip_stop_pks (all_rows two_runs) ≡ (1 ∷ 2 ∷ []) ∷ (3 ∷ 1 ∷ 2 ∷ []) ∷ []
get_trip_stop_pks_lem_example = get_trip_stop_pks_lem two_runs (refl, (refl, tt))

abbrev config_queries : ConfigQueries ℕ
config_queries = record {
  list_configs = λ system_pk d. none;
  update_config_row = λ pk bytes d. some (d + 1);
  insert_config_row = λ id system_pk bytes d. some (d + 10);
  delete_config_row = λ pk d. some (d + 100);
}

abbrev new_configs : List NewConfig
new_configs =
    record { id = "A"; marshalled = some "{}" } ∷ record { id = "B"; marshalled = some "{}" } ∷ []

configs_left :
    write_configs config_queries 1 (("A", 4) ∷ ("C", 5) ∷ []) new_configs 0
    ≡ some (("C", 5) ∷ [], 11)
unfolding write_configs write_config lookup delete
configs_left = refl

-- The query fails, and the update reports success.
lost_error : update_config config_queries 1 new_configs 7 ≡ some 7
unfolding update_config
lost_error = refl

abbrev old_configs : Map String ℕ
old_configs = ("A", 4) ∷ ("C", 5) ∷ []

abbrev left_configs : Map String ℕ
left_configs = ("C", 5) ∷ []

write_configs-lookup_example : lookup "C" left_configs ≡ (
    if contains {A = String} (map (λ (c : NewConfig). c.id) new_configs) "C"
    then none
    else lookup "C" old_configs)
write_configs-lookup_example =
    write_configs-lookup config_queries 1 old_configs left_configs new_configs 0 11 "C" configs_left
