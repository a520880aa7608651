-- ===== src/Realtime/UpdateTrips.antt =====
-- The whole of `updateTrips` of internal/update/realtime/realtime.go around its two loops: what it
-- asks of the database, the run of the staged updates, the trips that are deleted, and the routes
-- whose realtime maps are built again; with `BatchUpdate`, `ListTripsForUpdate` and
-- `ListStopTimesForUpdate` of internal/db/dbwrappers/dbwrappers.go. A range over the map of the
-- changed trips goes through them in the order in which they were added.
pub mod Active
mod Tests
use Prim.Native.String.{String}
use transiter.Base.{
  Bool, List, Option, [], if◌then◌else◌, nat_keys, none, some, string_keys, true, ℕ, ◌++◌, ◌==◌,
  ◌∷◌,
}
use transiter.Base.Int.{int_keys}
use transiter.Base.Maps.{Map, insert, keys, lookup}
use transiter.Database.Wrappers.{map_id_to_pk_in_system}
use transiter.Realtime.Headsigns.{group_rules, stop_pks_set}
use transiter.Realtime.StopTimes.{StagedUpdates, calculate_stop_time_changes}
use transiter.Realtime.Trips.{
  ExistingTrip, InsertRealtimeTrip, Trip, TripChanges, TripUid, UpdateTrip, change_trips,
  trip_entities_in_feed, uid_keys,
}
use transiter.Realtime.Types.{HeadsignRule, InsertStopTime, MarkPast, StopTimeRow, StopTimeUpdate}
use transiter.Static.Upsert.{map_values, pk_or_zero}

infixl 5 ◌>>=◌
abbrev ◌>>=◌ : {A B : Type 0} → Option A → (A → Option B) → Option B
none >>= f = none
some a >>= f = f a

-- stopIDsInTrips and routeIDsInTrips: the sets of the IDs, as maps to `true`.
unfoldable pub add_stop_ids : List StopTimeUpdate → Map String Bool → Map String Bool
add_stop_ids [] id_set = id_set
add_stop_ids (u ∷ us) id_set = elim u.stop_id [
  | none ↦ add_stop_ids us id_set
  | some id ↦ add_stop_ids us (insert id true id_set)
]

unfoldable pub add_trip_stop_ids : List Trip → Map String Bool → Map String Bool
unfolding add_stop_ids
add_trip_stop_ids [] id_set = id_set
add_trip_stop_ids (trip ∷ trips) id_set =
    add_trip_stop_ids trips (add_stop_ids trip.stop_time_updates id_set)

abbrev pub stop_ids_in_trips : List Trip → List String
stop_ids_in_trips trips = keys (add_trip_stop_ids trips [])

unfoldable pub add_route_ids : List Trip → Map String Bool → Map String Bool
add_route_ids [] id_set = id_set
add_route_ids (trip ∷ trips) id_set =
    add_route_ids trips (if trip.route_id == "" then id_set else insert trip.route_id true id_set)

abbrev pub route_ids_in_trips : List Trip → List String
route_ids_in_trips trips = keys (add_route_ids trips [])

-- The trips without a route ID.
unfoldable pub trip_ids_without_route_ids : List Trip → List String
trip_ids_without_route_ids [] = []
trip_ids_without_route_ids (trip ∷ trips) =
    let rest = trip_ids_without_route_ids trips in
    if trip.route_id == "" then trip.id ∷ rest else rest

-- The first loop of `NewStopHeadsignMatcher`, over all the trips.
unfoldable pub trips_stop_pks : Map String ℕ → Map ℕ Bool → List Trip → Map ℕ Bool
trips_stop_pks stop_ids id_set [] = id_set
trips_stop_pks stop_ids id_set (trip ∷ trips) =
    trips_stop_pks stop_ids (stop_pks_set stop_ids id_set trip.stop_time_updates) trips

-- The rows of ListTrips by their UIDs; a later row overwrites an earlier one.
unfoldable pub index_trips :
    List (TripUid × ExistingTrip) → Map TripUid ExistingTrip → Map TripUid ExistingTrip
index_trips [] m = m
index_trips ((uid, row) ∷ rows) m = index_trips rows (insert uid row m)

-- tripPkToUID
unfoldable pub uids_of_pks : Map TripUid ℕ → Map ℕ TripUid → Map ℕ TripUid
uids_of_pks [] m = m
uids_of_pks ((uid, pk) ∷ rest) m = uids_of_pks rest (insert pk uid m)

-- A missing key of a Go map gives the zero value.
abbrev pub uid_or_zero : Option TripUid → TripUid
uid_or_zero none = record { route_pk = 0; id = "" }
uid_or_zero (some uid) = uid

abbrev pub rows_or_nil : Option (List StopTimeRow) → List StopTimeRow
rows_or_nil none = []
rows_or_nil (some rows) = rows

-- The rows of ListTripStopTimesForUpdate, each with the primary key of its trip, by trip.
unfoldable pub group_stop_times :
    Map ℕ TripUid
    → List (ℕ × StopTimeRow)
    → Map TripUid (List StopTimeRow)
    → Map TripUid (List StopTimeRow)
group_stop_times uids [] m = m
group_stop_times uids ((trip_pk, row) ∷ rows) m =
    let uid = uid_or_zero (lookup trip_pk uids) in
    group_stop_times uids rows (insert uid (rows_or_nil (lookup uid m) ++ row ∷ []) m)

-- The error that is left of a batch is that of the last row that has one.
unfoldable pub last_error : Option String → List (Option String) → Option String
last_error err [] = err
last_error err (none ∷ rest) = last_error err rest
last_error err (some e ∷ rest) = last_error (some e) rest

unfoldable pub batch_update :
    {T Database : Type 0}
    → (List T → Database → List (Option String) × Database)
    → List T
    → Database
    → Option Database
unfolding last_error
batch_update f args d =
    let replied = f args d in
    elim (last_error none replied.0) [ none ↦ some replied.1 | some e ↦ none ]

-- What the loop over the changed trips writes.
pub record StagedTrips : Type 0 where
  pub staged : StagedUpdates
  pub route_pks_with_path_changes : Map ℕ Bool

module _ (reassign : Bool) (stop_id_to_pk : Map String ℕ) (rules : Map ℕ (List HeadsignRule))
    (trip_uid_to_pk : Map TripUid ℕ) (existing_stop_times : Map TripUid (List StopTimeRow)) where
  unfoldable pub stage_trip : TripUid → Trip → StagedTrips → StagedTrips
  unfolding calculate_stop_time_changes
  stage_trip uid trip s =
      let replied =
        calculate_stop_time_changes reassign (pk_or_zero (lookup uid trip_uid_to_pk)) stop_id_to_pk
          rules trip.stop_time_updates (rows_or_nil (lookup uid existing_stop_times)) s.staged in
      record {
        staged = replied.0;
        route_pks_with_path_changes =
            if replied.1
            then insert uid.route_pk true s.route_pks_with_path_changes
            else s.route_pks_with_path_changes;
      }

  unfoldable pub stage_trips : Map TripUid Trip → StagedTrips → StagedTrips
  unfolding stage_trip
  stage_trips [] s = s
  stage_trips ((uid, trip) ∷ rest) s = stage_trips rest (stage_trip uid trip s)

abbrev pub nothing_staged : StagedTrips
nothing_staged = record {
  staged = record { delete_stop_times = []; insert_stop_times = []; mark_stop_times_past = [] };
  route_pks_with_path_changes = [];
}

abbrev pub no_changes : {Database : Type 0} → Database → TripChanges Database
no_changes d = record {
  seen_uids = [];
  active_trip_pks = [];
  update_trips = [];
  trip_uid_to_pk = [];
  trip_uid_to_trip = [];
  database = d;
}

unfoldable pub mark_routes : List ℕ → Map ℕ Bool → Map ℕ Bool
mark_routes [] m = m
mark_routes (pk ∷ pks) m = mark_routes pks (insert pk true m)

-- The queries, none where one fails; a batch answers with an error or none for each row.
-- `update_realtime_maps` is the function UpdateRealtimeMaps.
pub record TripQueries (Database : Type 0) : Type 0 where
  pub map_stop_ids : Database → Bool → List String → Option (List (String × ℕ))
  pub map_route_ids : Database → Bool → List String → Option (List (String × ℕ))
  pub map_scheduled_trips : Database → Bool → List String → Option (List (String × ℕ))
  pub list_headsign_rules : Database → List ℕ → Option (List HeadsignRule)
  pub list_trips : Database → List ℕ → Option (List (TripUid × ExistingTrip))
  pub insert_trip : InsertRealtimeTrip → Database → Option (ℕ × Database)
  pub list_stop_times : Database → List ℕ → Option (List (ℕ × StopTimeRow))
  pub update_trip : List UpdateTrip → Database → List (Option String) × Database
  pub delete_stop_times : List ℕ → Database → Option Database
  pub insert_stop_times : List InsertStopTime → Database → Option Database
  pub mark_stop_times_past : List MarkPast → Database → List (Option String) × Database
  pub delete_stale_trips : ℕ → List ℕ → Database → Option (List ℕ × Database)
  pub update_realtime_maps : List ℕ → Database → Option Database

module _ {Database : Type 0} (q : TripQueries Database) where
  -- stagedUpdates.run
  unfoldable pub run_staged : List UpdateTrip → StagedUpdates → Database → Option Database
  unfolding batch_update
  run_staged updates staged d = do
    d1 ← batch_update q.update_trip updates d
    d2 ← q.delete_stop_times staged.delete_stop_times d1
    d3 ← q.insert_stop_times staged.insert_stop_times d2
    batch_update q.mark_stop_times_past staged.mark_stop_times_past d3

  abbrev pub list_stop_times_for_update :
      Database → Map TripUid ℕ → Option (Map TripUid (List StopTimeRow))
  list_stop_times_for_update d trip_uid_to_pk = do
    rows ← q.list_stop_times d (map_values trip_uid_to_pk)
    some (group_stop_times (uids_of_pks trip_uid_to_pk []) rows [])

  -- The part from the staged updates on.
  unfoldable pub write_trips : ℕ → TripChanges Database → StagedTrips → Option Database
  unfolding run_staged mark_routes
  write_trips feed_pk c s = do
    saved ← run_staged c.update_trips s.staged c.database
    (route_pks, d) ← q.delete_stale_trips feed_pk c.active_trip_pks saved
    q.update_realtime_maps (keys (mark_routes route_pks s.route_pks_with_path_changes)) d

  -- The rules of the stops of the trips, for the matcher of headsigns.
  abbrev pub new_stop_headsign_matcher :
      Database → Map String ℕ → List Trip → Option (Map ℕ (List HeadsignRule))
  new_stop_headsign_matcher d stop_id_to_pk trips = do
    rows ← q.list_headsign_rules d (keys (trips_stop_pks stop_id_to_pk [] trips))
    some (group_rules [] rows)

  -- An empty list of IDs sends no query.
  unfoldable pub update_trips : Bool → ℕ → List Trip → Database → Option Database
  unfolding write_trips
  update_trips reassign feed_pk all_trips d = do
    let trips = trip_entities_in_feed all_trips
    stop_ids ← map_id_to_pk_in_system (q.map_stop_ids d) (some (stop_ids_in_trips trips))
    rules ← new_stop_headsign_matcher d stop_ids trips
    trip_routes ←
        map_id_to_pk_in_system (q.map_scheduled_trips d) (some (trip_ids_without_route_ids trips))
    route_ids ← map_id_to_pk_in_system (q.map_route_ids d) (some (route_ids_in_trips trips))
    rows ← q.list_trips d (map_values trip_routes ++ map_values route_ids)
    c ←
        change_trips q.insert_trip feed_pk trip_routes route_ids (index_trips rows []) trips
          (no_changes d)
    stop_times ← list_stop_times_for_update c.database c.trip_uid_to_pk
    write_trips feed_pk c (
        stage_trips reassign stop_ids rules c.trip_uid_to_pk stop_times c.trip_uid_to_trip
          nothing_staged)
