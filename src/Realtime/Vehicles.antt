-- ===== src/Realtime/Vehicles.antt =====
-- `updateVehicles` of internal/update/realtime/realtime.go: which vehicles of a feed are inserted.
-- The query DeleteVehicles is in db/queries/vehicle_queries.sql.
pub mod Unique
use Prim.Native.String.{String}
use transiter.Base.{
  Bool, List, Option, [], contains, false, if◌then◌else◌, map, nat_keys, none, some, string_keys,
  true, ℕ, ◌&&◌, ◌==◌, ◌||◌, ◌∷◌,
}
use transiter.Base.Int.{int32_of_uint32, int_keys, ℤ}
use transiter.Base.Maps.{Map, insert, keys, lookup}
use transiter.Static.Rows.{null_if_empty_string}
use transiter.Static.Upsert.{map_values}

-- gtfs.Vehicle, and the fields that are written as they are. A vehicle or trip without an ID has
-- the ID "".
pub record Vehicle (Rest : Type 0) : Type 0 where
  pub is_entity_in_message : Bool
  pub id : String
  pub trip_id : String
  pub stop_id : Option String
  pub current_stop_sequence : Option ℕ
  pub occupancy_percentage : Option ℕ
  pub rest : Rest

-- db.InsertVehicleParams
pub record InsertVehicle (Rest : Type 0) : Type 0 where
  pub id : Option String
  pub system_pk : ℕ
  pub feed_pk : ℕ
  pub trip_pk : Option ℕ
  pub current_stop_pk : Option ℕ
  pub current_stop_sequence : Option ℤ
  pub occupancy_percentage : Option ℤ
  pub rest : Rest

-- convert.NullUInt32ToSigned
unfoldable pub null_uint32_to_signed : Option ℕ → Option ℤ
null_uint32_to_signed none = none
null_uint32_to_signed (some n) = some (int32_of_uint32 n)

-- The first loop.
unfoldable pub valid_vehicles : {R : Type 0} → List (Vehicle R) → List (Vehicle R)
valid_vehicles [] = []
valid_vehicles (v ∷ vs) =
    let rest = valid_vehicles vs in
    if v.is_entity_in_message then (if v.id == "" then rest else v ∷ rest) else rest

abbrev pub unless_other : String → ℕ → Option String → Option (Option ℕ)
unless_other id pk none = some (some pk)
unless_other id pk (some other) = if other == id then some (some pk) else none

-- The trip of a vehicle, if any; none where the vehicle is skipped.
abbrev pub known_trip : Map ℕ String → String → Option ℕ → Option (Option ℕ)
known_trip trip_pk_to_vehicle_id id none = none
known_trip trip_pk_to_vehicle_id id (some pk) = unless_other id pk (lookup pk trip_pk_to_vehicle_id)

unfoldable pub vehicle_trip : Map String ℕ → Map ℕ String → String → String → Option (Option ℕ)
vehicle_trip trip_id_to_pk trip_pk_to_vehicle_id id trip_id =
    if trip_id == ""
    then some none
    else known_trip trip_pk_to_vehicle_id id (lookup trip_id trip_id_to_pk)

abbrev pub stop_of : Map String ℕ → Option String → Option ℕ
stop_of stop_id_to_pk none = none
stop_of stop_id_to_pk (some id) = lookup id stop_id_to_pk

-- `insertedTripIDs[...] = true`, where the vehicle has a trip.
abbrev pub insert_trip : String → Option ℕ → Map String Bool → Map String Bool
insert_trip trip_id none trips = trips
insert_trip trip_id (some pk) trips = insert trip_id true trips

module _ {R : Type 0} (system_pk feed_pk : ℕ) (trip_id_to_pk : Map String ℕ)
    (trip_pk_to_vehicle_id : Map ℕ String) (stop_id_to_pk : Map String ℕ) where
  unfoldable pub insert_vehicle_params : Option ℕ → Vehicle R → InsertVehicle R
  unfolding null_uint32_to_signed null_if_empty_string
  insert_vehicle_params trip_pk v = record {
    id = null_if_empty_string v.id;
    system_pk = system_pk;
    feed_pk = feed_pk;
    trip_pk = trip_pk;
    current_stop_pk = stop_of stop_id_to_pk v.stop_id;
    current_stop_sequence = null_uint32_to_signed v.current_stop_sequence;
    occupancy_percentage = null_uint32_to_signed v.occupancy_percentage;
    rest = v.rest;
  }

  -- The loop over the valid vehicles, with the IDs of vehicles and trips that were inserted.
  unfoldable pub insert_vehicle_rows :
      Map String Bool → Map String Bool → List (Vehicle R) → List (InsertVehicle R)
  unfolding insert_vehicle_params vehicle_trip
  insert_vehicle_rows seen trips [] = []
  insert_vehicle_rows seen trips (v ∷ vs) =
      let seen' = insert v.id true seen in
      let duplicate = insert_vehicle_rows seen trips vs in
      let skipped_vehicle = insert_vehicle_rows seen' trips vs in
      if contains (keys seen) v.id
      then duplicate
      else if contains (keys trips) v.trip_id
      then skipped_vehicle
      else elim (vehicle_trip trip_id_to_pk trip_pk_to_vehicle_id v.id v.trip_id) [
        | none ↦ skipped_vehicle
        | some trip_pk ↦
            insert_vehicle_params trip_pk v
            ∷ insert_vehicle_rows seen' (insert_trip v.trip_id trip_pk trips) vs
      ]

-- The columns of a row of the table of vehicles that DeleteVehicles reads.
pub record VehicleRow : Type 0 where
  pub system_pk : ℕ
  pub feed_pk : ℕ
  pub id : String
  pub trip_pk : Option ℕ

-- db.DeleteVehiclesParams; a field that is not set is 0 or empty.
pub record DeleteVehicles : Type 0 where
  pub system_pk : ℕ
  pub feed_pk : ℕ
  pub vehicle_ids : List String
  pub trip_pks : List ℕ

abbrev pub has_trip : List ℕ → Option ℕ → Bool
has_trip pks none = false
has_trip pks (some pk) = contains pks pk

-- `DELETE FROM vehicle WHERE ...`
unfoldable pub delete_vehicles : DeleteVehicles → List VehicleRow → List VehicleRow
delete_vehicles p [] = []
delete_vehicles p (row ∷ rows) =
    let rest = delete_vehicles p rows in
    if row.system_pk == p.system_pk
      && (row.feed_pk == p.feed_pk
          || (contains p.vehicle_ids row.id || has_trip p.trip_pks row.trip_pk))
    then rest
    else row ∷ rest

-- What `updateVehicles` deletes, by the valid vehicles of the feed.
unfoldable pub vehicles_to_delete :
    {R : Type 0} → ℕ → ℕ → Map String ℕ → List (Vehicle R) → DeleteVehicles
unfolding map_values
vehicles_to_delete system_pk feed_pk trip_id_to_pk [] = record {
  system_pk = 0;
  feed_pk = feed_pk;
  vehicle_ids = [];
  trip_pks = [];
}
vehicles_to_delete system_pk feed_pk trip_id_to_pk (v ∷ vs) = record {
  system_pk = system_pk;
  feed_pk = feed_pk;
  vehicle_ids = map (λ (v : Vehicle _). v.id) (v ∷ vs);
  trip_pks = map_values trip_id_to_pk;
}
