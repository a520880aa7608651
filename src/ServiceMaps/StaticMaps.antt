-- ===== src/ServiceMaps/StaticMaps.antt =====
-- `buildStaticMaps`: the service maps of one configuration from the trips of the static feed.
pub mod Counts
use Prim.Native.String.{String}
use transiter.Base.{
  Bool, List, Option, [], foldl, if◌then◌else◌, nat_keys, none, not, some, string_keys, true, ℕ,
  ◌+◌, ◌∷◌,
}
use transiter.Base.Maps.{Map, insert, insert_each, lookup}
use transiter.Graph.Sort.{SortResult, err_graph_not_sortable, out_of_fuel, sorted, start}
use transiter.Graph.Types.{Edge, edge_keys}
use transiter.ServiceMaps.BuildMap.{build_map}
use transiter.ServiceMaps.Days.{build_included_service_ids}
use transiter.ServiceMaps.Included.{is_included_trip}
use transiter.ServiceMaps.Reverse.{set}
use transiter.ServiceMaps.TripKey.{calculate_trip_key, trip_edges}
use transiter.ServiceMaps.Types.{GoLib, ScheduledTrip, ServiceMapConfig}

pub record Counting : Type 0 where
  pub key_counts : Map ℕ (Map String ℕ)
  pub key_to_edges : Map String (List Edge)

-- The values of Go's maps at a missing key.
abbrev pub counts_at : Map ℕ (Map String ℕ) → ℕ → Map String ℕ
counts_at m pk = elim (lookup pk m) [ none ↦ [] | some c ↦ c ]

abbrev pub count_at : Map String ℕ → String → ℕ
count_at m key = elim (lookup key m) [ none ↦ 0 | some n ↦ n ]

abbrev pub edges_at : Map String (List Edge) → String → List Edge
edges_at m key = elim (lookup key m) [ none ↦ [] | some es ↦ es ]

-- `edges[e] = true` for each edge of a slice.
unfoldable pub add_edges : List Edge → Map Edge Bool → Map Edge Bool
add_edges es set = foldl (λ acc e. insert e true acc) set es

unfoldable pub sum_counts : Map String ℕ → ℕ
sum_counts [] = 0
sum_counts ((_, n) ∷ m) = n + sum_counts m

-- `make` of an empty inner map for each route.
unfoldable pub empty_maps {ℓ} : {V : Type ℓ} → Map String ℕ → Map ℕ (List V) → Map ℕ (List V)
empty_maps [] m = m
empty_maps ((_, pk) ∷ routes) m = empty_maps routes (insert pk [] m)

module _ (lib : GoLib) (smc : ServiceMapConfig lib.Float) (routes : Map String ℕ)
    (stations : Map String ℕ) where
  -- One round of the loop over the trips.
  unfoldable pub count_trip : Map String Bool → Counting → ScheduledTrip → Counting
  count_trip included s trip = elim (lookup trip.route_id routes) [
    | none ↦ s
    | some route_pk ↦
        let key = calculate_trip_key lib trip stations in
        let counts = counts_at s.key_counts route_pk in
        if not (is_included_trip lib smc trip included) then s else record {
          key_counts = insert route_pk (insert key (count_at counts key + 1) counts) s.key_counts;
          key_to_edges = insert key (trip_edges stations trip) s.key_to_edges;
        }
  ]

  unfoldable pub count_trips : Map String Bool → Counting → List ScheduledTrip → Counting
  unfolding count_trip
  count_trips included s [] = s
  count_trips included s (trip ∷ trips) = count_trips included (count_trip included s trip) trips

  -- `float64(count) < float64(totalCount) * smc.Threshold`
  unfoldable pub is_rare : ℕ → ℕ → Bool
  is_rare total count =
      lib.float_lt (lib.float_of_int count) (lib.float_mul (lib.float_of_int total) smc.threshold)

  -- The loop over the keys of a route.
  unfoldable pub keep_common :
      Map String (List Edge) → ℕ → Map String ℕ → Map Edge Bool → Map Edge Bool
  unfolding is_rare add_edges
  keep_common key_to_edges total [] set = set
  keep_common key_to_edges total ((key, count) ∷ counts) set =
      keep_common key_to_edges total counts
        (if is_rare total count then set else add_edges (edges_at key_to_edges key) set)

  abbrev pub old_set : Option (Map Edge Bool) → Map Edge Bool
  old_set none = []
  old_set (some set) = set

  unfoldable pub route_edges : Counting → Map ℕ (Map Edge Bool)
  unfolding keep_common sum_counts empty_maps insert_each
  route_edges s =
      insert_each
        (λ _ counts old. keep_common s.key_to_edges (sum_counts counts) counts (old_set old))
        s.key_counts (empty_maps routes [])

  -- A route whose edges have a cycle gets the nil slice, as `buildMap` returns it.
  abbrev pub stops_or_nil : SortResult → List ℕ
  stops_or_nil (sorted stops) = stops
  stops_or_nil err_graph_not_sortable = []
  stops_or_nil out_of_fuel = []

  unfoldable pub build_static_maps : List ScheduledTrip → Map ℕ (List ℕ)
  unfolding count_trips route_edges
  build_static_maps trips =
      let included = build_included_service_ids lib smc trips in
      let start : Counting = record { key_counts = empty_maps routes []; key_to_edges = [] } in
      let s = count_trips included start trips in
      let edges = route_edges s in
      insert_each (λ pk _ _. stops_or_nil (build_map (old_set (lookup pk edges)))) s.key_counts []
