-- ===== src/Static/ScheduledTrips.antt =====
-- `updateServices`, `updateShapes` and `updateScheduledTrips` of
-- internal/update/static/static.go: which trips are inserted, and for which rows stop times are.
pub mod Orphans
use Prim.Native.String.{String}
use transiter.Base.{List, Option, [], nat_keys, none, some, string_keys, ℕ, ◌%◌, ◌++◌, ◌∷◌}
use transiter.Base.Int.{int32_of_uint32, int_keys, ℤ}
use transiter.Base.Maps.{Map, lookup}
use transiter.Static.Rows.{null_if_empty_string}

-- gtfs.ScheduledTrip, with the fields that are written as they are.
pub record StaticStopTime (Rest : Type 0) : Type 0 where
  pub stop_id : String
  pub stop_sequence : ℕ
  pub headsign : String
  pub rest : Rest

pub record StaticTrip (Rest : Type 0) : Type 0 where
  pub id : String
  pub route_id : String
  pub service_id : String
  pub shape_id : Option String
  pub headsign : String
  pub short_name : String
  pub stop_times : List (StaticStopTime Rest)
  pub rest : Rest

-- db.InsertScheduledTripParams
pub record InsertTrip (Rest : Type 0) : Type 0 where
  pub id : String
  pub route_pk : ℕ
  pub service_pk : ℕ
  pub shape_pk : Option ℕ
  pub headsign : Option String
  pub short_name : Option String
  pub rest : Rest

-- db.InsertScheduledTripStopTimeParams
pub record InsertTripStopTime (Rest : Type 0) : Type 0 where
  pub trip_pk : ℕ
  pub stop_pk : ℕ
  pub stop_sequence : ℤ
  pub headsign : Option String
  pub rest : Rest

abbrev pub shape_pk_of : Map String ℕ → Option String → Option ℕ
shape_pk_of shape_id_to_pk none = none
shape_pk_of shape_id_to_pk (some id) = lookup id shape_id_to_pk

module _ {R : Type 0} (route_id_to_pk service_id_to_pk shape_id_to_pk : Map String ℕ) where
  -- The row of a trip, none where the trip is skipped.
  unfoldable pub trip_row : StaticTrip R → Option (InsertTrip R)
  unfolding null_if_empty_string
  trip_row trip = elim (lookup trip.route_id route_id_to_pk) [
    | none ↦ none
    | some route_pk ↦ elim (lookup trip.service_id service_id_to_pk) [
      | none ↦ none
      | some service_pk ↦ some (record {
        id = trip.id;
        route_pk = route_pk;
        service_pk = service_pk;
        shape_pk = shape_pk_of shape_id_to_pk trip.shape_id;
        headsign = null_if_empty_string trip.headsign;
        short_name = null_if_empty_string trip.short_name;
        rest = trip.rest;
      })
    ]
  ]

  -- The first loop.
  unfoldable pub trip_rows : List (StaticTrip R) → List (InsertTrip R)
  unfolding trip_row
  trip_rows [] = []
  trip_rows (trip ∷ trips) =
      let rest = trip_rows trips in elim (trip_row trip) [ none ↦ rest | some row ↦ row ∷ rest ]

abbrev pub zero_if_none : Option ℕ → ℕ
zero_if_none none = 0
zero_if_none (some pk) = pk

module _ {R : Type 0} (stop_id_to_pk : Map String ℕ) where
  abbrev pub stop_time_row : ℕ → StaticStopTime R → InsertTripStopTime R
  stop_time_row trip_pk s = record {
    trip_pk = trip_pk;
    stop_pk = zero_if_none (lookup s.stop_id stop_id_to_pk);
    stop_sequence = int32_of_uint32 (s.stop_sequence % 4_294_967_296);
    headsign = null_if_empty_string s.headsign;
    rest = s.rest;
  }

  unfoldable pub stop_time_rows : ℕ → List (StaticStopTime R) → List (InsertTripStopTime R)
  stop_time_rows trip_pk [] = []
  stop_time_rows trip_pk (s ∷ ss) = stop_time_row trip_pk s ∷ stop_time_rows trip_pk ss

  -- The second loop, over all trips. A key that a map does not have gives 0.
  unfoldable pub all_stop_time_rows :
      Map String ℕ → List (StaticTrip R) → List (InsertTripStopTime R)
  unfolding stop_time_rows
  all_stop_time_rows trip_id_to_pk [] = []
  all_stop_time_rows trip_id_to_pk (trip ∷ trips) =
      stop_time_rows (zero_if_none (lookup trip.id trip_id_to_pk)) trip.stop_times
      ++ all_stop_time_rows trip_id_to_pk trips
