-- ===== src/Realtime/UpdateTrips/Tests.antt =====
-- The theorem on `updateTrips` at a small feed.
use Prim.Native.String.{String}
use transiter.Base.{List, [], false, nat_keys, none, refl, some, string_keys, true, ◌∷◌, ◌≡◌}
use transiter.Base.Int.{int_keys}
use transiter.Base.Maps.{Map, insert, lookup}
use transiter.Realtime.StopTimes.{calculate_stop_time_changes}
use transiter.Realtime.Trips.{ExistingTrip, Trip, TripChanges, TripUid, change_trips, uid_keys}
use transiter.Realtime.Trips.Inserts.{insert_unique_trip}
use transiter.Realtime.Types.{StopTimeEvent, StopTimeUpdate}
use transiter.Realtime.UpdateTrips.{no_changes, nothing_staged, stage_trip, stage_trips}
use transiter.Realtime.UpdateTrips.Active.{MarksAmong, marked_pks, stage_trips-active}

abbrev no_event : StopTimeEvent
no_event = record { time = none; delay = none; uncertainty = none }

abbrev one_update : StopTimeUpdate
one_update = record {
  stop_id = some "A";
  stop_sequence = some 2;
  nyct_track = none;
  is_skipped = false;
  arrival = no_event;
  departure = no_event;
}

abbrev feed_trip : String → Trip
feed_trip id = record {
  id = id;
  route_id = "R";
  direction_id = some true;
  is_entity_in_message = true;
  is_canceled_or_deleted = false;
  gtfs_hash = "new";
  stop_time_updates = one_update ∷ [];
}

abbrev uid : String → TripUid
uid id = record { route_pk = 3; id = id }

abbrev existing_trips : Map TripUid ExistingTrip
existing_trips =
    (uid "T", record { pk = 30; gtfs_hash = "old"; feed_pk = 2 })
    ∷ (uid "S", record { pk = 31; gtfs_hash = "new"; feed_pk = 2 })
    ∷ []

-- The trip T has changed, and S has not.
abbrev after_loop : TripChanges (List TripUid)
after_loop = record {
  seen_uids = (uid "T", true) ∷ (uid "S", true) ∷ [];
  active_trip_pks = 30 ∷ 31 ∷ [];
  update_trips = record { pk = 30; feed_pk = 2; direction_id = some true; gtfs_hash = "new" } ∷ [];
  trip_uid_to_pk = (uid "T", 30) ∷ [];
  trip_uid_to_trip = (uid "T", feed_trip "T") ∷ [];
  database = uid "T" ∷ uid "S" ∷ [];
}

change_trips-after_loop :
    change_trips insert_unique_trip 2 []
      (("R", 3) ∷ [])
      existing_trips
      (feed_trip "T" ∷ feed_trip "S" ∷ [])
      (no_changes (uid "T" ∷ uid "S" ∷ []))
    ≡ some after_loop
unfolding change_trips insert lookup insert_unique_trip
change_trips-after_loop = refl

stage_trips-active_example : MarksAmong (30 ∷ 31 ∷ []) (
    stage_trips false
      (("A", 1) ∷ [])
      []
      after_loop.trip_uid_to_pk
      []
      after_loop.trip_uid_to_trip
      nothing_staged)
stage_trips-active_example =
    stage_trips-active insert_unique_trip 2 [] (("R", 3) ∷ []) existing_trips
      (feed_trip "T" ∷ feed_trip "S" ∷ []) (uid "T" ∷ uid "S" ∷ []) after_loop
      change_trips-after_loop false (("A", 1) ∷ []) [] []

marked_trips :
    marked_pks
      (stage_trips false
        (("A", 1) ∷ [])
        []
        after_loop.trip_uid_to_pk
        []
        after_loop.trip_uid_to_trip
        nothing_staged).staged.mark_stop_times_past
    ≡ 30 ∷ []
unfolding stage_trips stage_trip calculate_stop_time_changes lookup
marked_trips = refl
