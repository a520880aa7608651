-- ===== src/Realtime/Tests.antt =====
-- The theorems on realtime updates at small feeds.
use Prim.{tt}
use Prim.Native.String.{String}
use transiter.Base.{
  List, Option, [], arith, contains, false, map, nat_keys, nodup, none, refl, some, string_keys,
  true, ℕ, ◌∷◌, ◌≡◌,
}
use transiter.Base.Int.{int_keys, negsuc, pos, ℤ}
use transiter.Base.Maps.{Map, insert, lookup}
use transiter.Realtime.Alerts.{Alert, PkAndHash, no_alert_changes, sort_alert, sort_alerts}
use transiter.Realtime.Alerts.Partition.{first_alert, ids, is_inserted, sort_alerts_lem}
use transiter.Realtime.Headsigns.{first_fit, group_rules, match_headsign, match_headsign_lem}
use transiter.Realtime.Sequences.{populate_stop_sequences}
use transiter.Realtime.Sequences.Increasing.{IsIncreasing, populate_stop_sequences-IsIncreasing}
use transiter.Realtime.StopTimes.{StagedUpdates, calculate_stop_time_changes}
use transiter.Realtime.StopTimes.PathChanged.{path_changed-of_primary_keys}
use transiter.Realtime.Trips.{ExistingTrip, Trip, TripChanges, TripUid, change_trips, uid_keys}
use transiter.Realtime.Trips.Inserts.{IsKnown, Succeeds, change_trips-Succeeds, insert_unique_trip}
use transiter.Realtime.Types.{HeadsignRule, StopTimeEvent, StopTimeRow, StopTimeUpdate, stop_pk_of}
use transiter.Realtime.Vehicles.{
  Vehicle, VehicleRow, delete_vehicles, insert_vehicle_rows, valid_vehicles, vehicles_to_delete,
}
use transiter.Realtime.Vehicles.Unique.{DistinctIds, inserted-DistinctIds, no_vehicles-delete}

abbrev no_event : StopTimeEvent
no_event = record { time = none; delay = none; uncertainty = none }

abbrev update_at : String → Option ℕ → Option String → StopTimeUpdate
update_at id q track = record {
  stop_id = some id;
  stop_sequence = q;
  nyct_track = track;
  is_skipped = false;
  arrival = no_event;
  departure = no_event;
}

abbrev row_at : ℕ → ℕ → ℤ → StopTimeRow
row_at pk stop_pk q = record { pk = pk; stop_pk = stop_pk; stop_sequence = q }

abbrev stops : Map String ℕ
stops = ("A", 1) ∷ ("B", 2) ∷ ("C", 3) ∷ []

abbrev two_updates : List StopTimeUpdate
two_updates = update_at "A" none none ∷ update_at "B" (some 7) none ∷ []

abbrev two_rows : List StopTimeRow
two_rows = row_at 11 1 (pos 4) ∷ row_at 12 2 (pos 5) ∷ []

sequences_example :
    map
      (λ (u : StopTimeUpdate). u.stop_sequence)
      (populate_stop_sequences two_updates two_rows stops false)
    ≡ some 4 ∷ some 7 ∷ []
unfolding populate_stop_sequences stop_pk_of lookup insert
sequences_example = refl

populate_stop_sequences-IsIncreasing_example :
    IsIncreasing stops (populate_stop_sequences two_updates two_rows stops false) (negsuc 0)
populate_stop_sequences-IsIncreasing_example =
    populate_stop_sequences-IsIncreasing two_updates two_rows stops false 10 (omega arith)
      (tt, (omega arith, tt)) (omega arith, (omega arith, tt))

abbrev rule_at : ℕ → Option String → String → HeadsignRule
rule_at pk track headsign = record { stop_pk = pk; track = track; headsign = headsign }

abbrev two_rules : List HeadsignRule
two_rules = rule_at 1 (some "T1") "North" ∷ rule_at 1 none "South" ∷ []

match_headsign_lem_example :
    match_headsign (group_rules [] two_rules) 1 (some "T2") ≡ first_fit 1 (some "T2") two_rules
match_headsign_lem_example = match_headsign_lem two_rules 1 (some "T2")

abbrev no_staged : StagedUpdates
no_staged = record { delete_stop_times = []; insert_stop_times = []; mark_stop_times_past = [] }

-- The two updates are for the stops of the two rows; the path is said to have changed.
path_changed-of_primary_keys_example :
    (calculate_stop_time_changes false 9 stops [] two_updates two_rows no_staged).1 ≡ true
path_changed-of_primary_keys_example =
    path_changed-of_primary_keys false 9 stops [] two_updates two_rows no_staged 1
      (unfold stop_pk_of insert lookup in refl) (omega arith, (omega arith, tt))

abbrev alert : String → Alert ℕ
alert id = record { id = id; body = 1 }

abbrev hash : Alert ℕ → String
hash a = "h"

abbrev stored : Map String PkAndHash
stored = ("A", record { pk = 4; hash = "h" }) ∷ ("B", record { pk = 5; hash = "g" }) ∷ []

abbrev alerts : List (Alert ℕ)
alerts = alert "A" ∷ alert "B" ∷ alert "C" ∷ alert "B" ∷ []

alerts_changes : sort_alerts hash stored alerts (no_alert_changes hash) ≡ record {
  id_to_hash = ("A", "h") ∷ ("B", "h") ∷ ("C", "h") ∷ [];
  unchanged_alert_pks = 4 ∷ [];
  updated_alert_pks = 5 ∷ [];
  alerts_to_insert = alert "B" ∷ alert "C" ∷ [];
}
unfolding sort_alerts sort_alert no_alert_changes lookup insert
alerts_changes = refl

sort_alerts_lem_example :
    (nodup
        (ids hash stored (sort_alerts hash stored alerts (no_alert_changes hash)).alerts_to_insert)
      ≡ true)
    × ((k : String)
        → contains
            (ids hash stored
              (sort_alerts hash stored alerts (no_alert_changes hash)).alerts_to_insert)
            k
          ≡ is_inserted hash stored (first_alert hash stored k alerts))
sort_alerts_lem_example = sort_alerts_lem hash stored alerts

abbrev vehicle : String → String → Vehicle ℕ
vehicle id trip_id = record {
  is_entity_in_message = true;
  id = id;
  trip_id = trip_id;
  stop_id = none;
  current_stop_sequence = none;
  occupancy_percentage = none;
  rest = 0;
}

abbrev vehicles : List (Vehicle ℕ)
vehicles = vehicle "V" "T" ∷ vehicle "V" "" ∷ vehicle "" "T" ∷ []

inserted-DistinctIds_example :
    DistinctIds 1 2
      (("T", 8) ∷ [])
      []
      []
      (insert_vehicle_rows 1 2 (("T", 8) ∷ []) [] [] [] [] (valid_vehicles vehicles))
inserted-DistinctIds_example = inserted-DistinctIds 1 2 (("T", 8) ∷ []) [] [] vehicles

abbrev table : List VehicleRow
table = record { system_pk = 1; feed_pk = 2; id = "V"; trip_pk = none } ∷ []

no_vehicles-delete_example :
    delete_vehicles (vehicles_to_delete {R = ℕ} 1 2 [] (valid_vehicles [])) table ≡ table
no_vehicles-delete_example =
    no_vehicles-delete 1 2 [] [] table (unfold valid_vehicles in refl) (omega arith, tt)

abbrev feed_trip : String → String → Trip
feed_trip id hash_text = record {
  id = id;
  route_id = "R";
  direction_id = some true;
  is_entity_in_message = true;
  is_canceled_or_deleted = false;
  gtfs_hash = hash_text;
  stop_time_updates = two_updates;
}

abbrev uid : String → TripUid
uid id = record { route_pk = 3; id = id }

abbrev existing_trips : Map TripUid ExistingTrip
existing_trips = (uid "T", record { pk = 30; gtfs_hash = "old"; feed_pk = 2 }) ∷ []

abbrev no_trip_changes : TripChanges (List TripUid)
no_trip_changes = record {
  seen_uids = [];
  active_trip_pks = [];
  update_trips = [];
  trip_uid_to_pk = [];
  trip_uid_to_trip = [];
  database = uid "T" ∷ [];
}

no_trip_changes-IsKnown : IsKnown 2 [] (("R", 3) ∷ []) existing_trips no_trip_changes
no_trip_changes-IsKnown u has = ground arith

abbrev feed_trips : List Trip
feed_trips = feed_trip "T" "new" ∷ feed_trip "U" "a" ∷ feed_trip "U" "b" ∷ []

change_trips-Succeeds_example :
    Succeeds 2 [] (("R", 3) ∷ []) existing_trips (
      change_trips insert_unique_trip 2 []
        (("R", 3) ∷ [])
        existing_trips
        feed_trips
        no_trip_changes)
change_trips-Succeeds_example =
    change_trips-Succeeds 2 [] (("R", 3) ∷ []) existing_trips feed_trips no_trip_changes
      no_trip_changes-IsKnown
