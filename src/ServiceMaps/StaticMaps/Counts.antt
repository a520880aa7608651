-- ===== src/ServiceMaps/StaticMaps/Counts.antt =====
-- What the loop over the trips in `buildStaticMaps` counts, and which edges it keeps.
use Prim.Native.String.{String}
use text.Mathlib.TextEquality.{eq_iff}
use transiter.Base.{
  Bool, List, Option-cases, [], arith, false, if◌then◌else◌, inl, inr, nat_keys, nat_same_iff, none,
  some, string_keys, ℕ, ◌&&◌, ◌+◌, ◌==◌, ◌∷◌, ◌≡◌,
}
use transiter.Base.Maps.{Map, insert, lookup, lookup-insert}
use transiter.Graph.Types.{edge_keys}
use transiter.ServiceMaps.Included.{is_included_trip}
use transiter.ServiceMaps.StaticMaps.{Counting, count_at, count_trip, count_trips, counts_at}
use transiter.ServiceMaps.TripKey.{calculate_trip_key}
use transiter.ServiceMaps.Types.{GoLib, ScheduledTrip, ServiceMapConfig}

module _ (lib : GoLib) (smc : ServiceMapConfig lib.Float) (routes : Map String ℕ)
    (stations : Map String ℕ) (included : Map String Bool) where
  -- Whether a trip is counted for a route.
  unfoldable pub counts_for : ℕ → ScheduledTrip → Bool
  counts_for route_pk trip =
      elim (lookup trip.route_id routes) [ none ↦ false | some pk ↦ pk == route_pk ]
      && is_included_trip lib smc trip included

  abbrev pub key_of : ScheduledTrip → String
  key_of trip = calculate_trip_key lib trip stations

  -- How many trips of a list are counted for a route and have a key.
  abbrev pub how_many : ℕ → String → List ScheduledTrip → ℕ
  how_many route_pk key [] = 0
  how_many route_pk key (trip ∷ trips) =
      (if counts_for route_pk trip && key_of trip == key then 1 else 0)
      + how_many route_pk key trips

  count-count_trip :
      (s : Counting) (trip : ScheduledTrip) (route_pk : ℕ) (key : String)
      → count_at
          (counts_at (count_trip lib smc routes stations included s trip).key_counts route_pk)
          key
        ≡ (if counts_for route_pk trip && key_of trip == key then 1 else 0)
          + count_at (counts_at s.key_counts route_pk) key
  unfolding count_trip counts_for
  count-count_trip s trip route_pk key = elim (Option-cases (lookup trip.route_id routes)) [
    | inl missing ↦ ground arith
    | inr (pk, found) ↦
        let counts = counts_at s.key_counts pk in
        let k = key_of trip in
        ground (
          arith,
          found,
          lookup-insert pk route_pk (insert k (count_at counts k + 1) counts) s.key_counts,
          lookup-insert k key (count_at counts k + 1) counts,
          eq_iff k key,
          nat_same_iff pk route_pk,
        )
  ]

  -- After the loop, the count of a key at a route is the number of the trips that are counted for
  -- the route and have the key.
  pub count-count_trips :
      (s : Counting) (trips : List ScheduledTrip) (route_pk : ℕ) (key : String)
      → count_at
          (counts_at (count_trips lib smc routes stations included s trips).key_counts route_pk)
          key
        ≡ how_many route_pk key trips + count_at (counts_at s.key_counts route_pk) key
  unfolding count_trips
  count-count_trips s [] route_pk key = omega arith
  count-count_trips s (trip ∷ trips) route_pk key = omega (
    arith,
    count-count_trips (count_trip lib smc routes stations included s trip) trips route_pk key,
    count-count_trip s trip route_pk key,
  )
