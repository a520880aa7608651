-- ===== src/Realtime/Trips.antt =====
-- `updateTrips` of internal/update/realtime/realtime.go: the trips of a feed that are used, their
-- routes, and the loop that updates and inserts their rows.
pub mod Inserts
use Prim.Native.String.{String}
use transiter.Base.{
  Bool, Comparable, List, Option, [], arith, contains, if◌then◌else◌, nat_keys, nat_same_iff, none,
  some, string_keys, true, ℕ, ◌&&◌, ◌++◌, ◌==◌, ◌↔◌, ◌∷◌, ◌≡◌,
}
use transiter.Base.Int.{int_keys}
use transiter.Base.Maps.{Map, insert, keys, lookup}
use transiter.Realtime.Types.{StopTimeUpdate}
use transiter.Realtime.Vehicles.{insert_trip}

-- gtfs.Trip, as far as it is read here: whether its schedule relationship is CANCELED or DELETED, and
-- the hash that the code computes of the trip and its vehicle.
pub record Trip : Type 0 where
  pub id : String
  pub route_id : String
  pub direction_id : Option Bool
  pub is_entity_in_message : Bool
  pub is_canceled_or_deleted : Bool
  pub gtfs_hash : String
  pub stop_time_updates : List StopTimeUpdate

-- dbwrappers.TripUID
pub record TripUid : Type 0 where
  pub route_pk : ℕ
  pub id : String

abbrev pub uid_same : TripUid → TripUid → Bool
uid_same a b = a.route_pk == b.route_pk && a.id == b.id

pub uid_same_iff : (a b : TripUid) → (uid_same a b ≡ true) ↔ (a ≡ b)
uid_same_iff a b =
    ground (arith, nat_same_iff a.route_pk b.route_pk, string_keys.same_iff a.id b.id)

instance abbrev pub uid_keys : Comparable TripUid
uid_keys = record { same = uid_same; same_iff = uid_same_iff }

-- The row of dbwrappers.ListTripsForUpdate.
pub record ExistingTrip : Type 0 where
  pub pk : ℕ
  pub gtfs_hash : String
  pub feed_pk : ℕ

-- db.UpdateTripParams
pub record UpdateTrip : Type 0 where
  pub pk : ℕ
  pub feed_pk : ℕ
  pub direction_id : Option Bool
  pub gtfs_hash : String

-- db.InsertTripParams
pub record InsertRealtimeTrip : Type 0 where
  pub id : String
  pub route_pk : ℕ
  pub feed_pk : ℕ
  pub direction_id : Option Bool
  pub gtfs_hash : String

-- The first loop.
unfoldable pub trip_entities_in_feed : List Trip → List Trip
trip_entities_in_feed [] = []
trip_entities_in_feed (trip ∷ trips) =
    let rest = trip_entities_in_feed trips in
    if trip.is_entity_in_message
    then (if trip.is_canceled_or_deleted then rest else trip ∷ rest)
    else rest

-- The variables that the loop over the trips writes, and the database.
pub record TripChanges (Database : Type 0) : Type 0 where
  pub seen_uids : Map TripUid Bool
  pub active_trip_pks : List ℕ
  pub update_trips : List UpdateTrip
  pub trip_uid_to_pk : Map TripUid ℕ
  pub trip_uid_to_trip : Map TripUid Trip
  pub database : Database

module _ {Database : Type 0} (insert_trip : InsertRealtimeTrip → Database → Option (ℕ × Database))
    (feed_pk : ℕ) (trip_id_to_route_pk route_id_to_pk : Map String ℕ)
    (existing_trips : Map TripUid ExistingTrip) where
  -- The route of the trip, from the static data where the feed does not have it.
  abbrev pub route_of : Trip → Option ℕ
  route_of trip =
      if trip.route_id == ""
      then lookup trip.id trip_id_to_route_pk
      else lookup trip.route_id route_id_to_pk

  abbrev pub activate : TripUid → Trip → ℕ → TripChanges Database → TripChanges Database
  activate uid trip pk c = record c {
    active_trip_pks = c.active_trip_pks ++ pk ∷ [];
    trip_uid_to_pk = insert uid pk c.trip_uid_to_pk;
    trip_uid_to_trip = insert uid trip c.trip_uid_to_trip;
  }

  abbrev pub inserted :
      TripUid → Trip → TripChanges Database → Option (ℕ × Database) → Option (TripChanges Database)
  inserted uid trip c none = none
  inserted uid trip c (some (pk, d)) = some (activate uid trip pk (record c { database = d }))

  abbrev pub insert_params : TripUid → Trip → InsertRealtimeTrip
  insert_params uid trip = record {
    id = trip.id;
    route_pk = uid.route_pk;
    feed_pk = feed_pk;
    direction_id = trip.direction_id;
    gtfs_hash = trip.gtfs_hash;
  }

  -- A trip that is not a duplicate, by what the database has of it.
  abbrev pub change_trip :
      TripUid → Option ExistingTrip → Trip → TripChanges Database → Option (TripChanges Database)
  change_trip uid none trip c =
      inserted uid trip c (insert_trip (insert_params uid trip) c.database)
  change_trip uid (some existing) trip c =
      if existing.gtfs_hash == trip.gtfs_hash && existing.feed_pk == feed_pk
      then some (record c { active_trip_pks = c.active_trip_pks ++ existing.pk ∷ [] })
      else some (
          activate uid trip existing.pk (record c {
            update_trips =
                c.update_trips
                ++ record {
                  pk = existing.pk;
                  feed_pk = feed_pk;
                  direction_id = trip.direction_id;
                  gtfs_hash = trip.gtfs_hash;
                }
                  ∷ [];
          }))

  abbrev pub with_route : Option ℕ → Trip → TripChanges Database → Option (TripChanges Database)
  with_route none trip c = some c
  with_route (some route_pk) trip c =
      let uid : TripUid = record { route_pk = route_pk; id = trip.id } in
      if contains (keys c.seen_uids) uid
      then some c
      else change_trip uid (lookup uid existing_trips) trip
          (record c { seen_uids = insert uid true c.seen_uids })

  -- The loop; none where the insertion of a trip fails.
  unfoldable pub change_trips : List Trip → TripChanges Database → Option (TripChanges Database)
  change_trips [] c = some c
  change_trips (trip ∷ trips) c = elim (with_route (route_of trip) trip c) [
    | none ↦ none
    | some c' ↦ change_trips trips c'
  ]
