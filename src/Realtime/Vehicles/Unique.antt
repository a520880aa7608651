-- ===== src/Realtime/Vehicles/Unique.antt =====
-- The vehicles that `updateVehicles` inserts and deletes.
use Prim.{tt}
use Prim.Native.String.{String}
use transiter.Base.{
  Bool, Bool-cases, List, Option-cases, [], arith, contains, false, inl, inr, nat_keys,
  nat_same_iff, none, refl, some, string_keys, true, ℕ, ◌<◌, ◌==◌, ◌||◌, ◌∷◌, ◌≡◌,
}
use transiter.Base.Int.{int_keys}
use transiter.Base.Maps.{Map, contains-keys-insert, insert, keys}
use transiter.Realtime.Alerts.Partition.{ids}
use transiter.Realtime.Vehicles.{
  InsertVehicle, Vehicle, VehicleRow, delete_vehicles, insert_trip, insert_vehicle_params,
  insert_vehicle_rows, valid_vehicles, vehicle_trip, vehicles_to_delete,
}
use transiter.Static.Rows.{null_if_empty_string}

module _ {R : Type 0} (system_pk feed_pk : ℕ) (trip_id_to_pk : Map String ℕ)
    (trip_pk_to_vehicle_id : Map ℕ String) (stop_id_to_pk : Map String ℕ) where
  abbrev rows : Map String Bool → Map String Bool → List (Vehicle R) → List (InsertVehicle R)
  rows = insert_vehicle_rows system_pk feed_pk trip_id_to_pk trip_pk_to_vehicle_id stop_id_to_pk

  abbrev HasIds : List (Vehicle R) → Type 0
  HasIds [] = Unit
  HasIds (v ∷ vs) = ((v.id == "") ≡ false) × HasIds vs

  valid_vehicles-HasIds : (vs : List (Vehicle R)) → HasIds (valid_vehicles vs)
  unfolding valid_vehicles
  valid_vehicles-HasIds [] = tt
  valid_vehicles-HasIds (v ∷ vs) = elim (Bool-cases v.is_entity_in_message) [
    | inl inside ↦ elim (Bool-cases (v.id == "")) [
      | inl empty ↦ rw (inside, empty) (valid_vehicles-HasIds vs)
      | inr given ↦ rw (inside, given) (given, valid_vehicles-HasIds vs)
    ]
    | inr outside ↦ rw outside (valid_vehicles-HasIds vs)
  ]

  -- A vehicle that is inserted is not one of those seen before.
  abbrev pub has_id : List (InsertVehicle R) → String → Bool
  has_id [] k = false
  has_id (row ∷ rs) k =
      let later = has_id rs k in elim row.id [ none ↦ later | some id ↦ id == k || later ]

  -- The rows have IDs, and these are distinct.
  abbrev pub DistinctIds : List (InsertVehicle R) → Type 0
  DistinctIds [] = Unit
  DistinctIds (row ∷ rs) =
      ((id : String) × (row.id ≡ some id) × (has_id rs id ≡ false)) × DistinctIds rs

  rows-new :
      (seen trips : Map String Bool) (vs : List (Vehicle R)) (k : String)
      → HasIds vs
      → contains (keys seen) k ≡ true
      → has_id (rows seen trips vs) k ≡ false
  unfolding insert_vehicle_rows insert_vehicle_params null_if_empty_string
  rows-new seen trips [] k ids has = refl
  rows-new seen trips (v ∷ vs) k ids has =
      let seen' = insert v.id true seen in
      let has' : contains (keys seen') k ≡ true =
        ground (arith, contains-keys-insert v.id k true seen) in
      elim (Bool-cases (contains (keys seen) v.id)) [
        | inl duplicate ↦ rw duplicate (rows-new seen trips vs k ids.1 has)
        | inr first ↦ elim (Bool-cases (contains (keys trips) v.trip_id)) [
          | inl taken ↦ rw (first, taken) (rows-new seen' trips vs k ids.1 has')
          | inr free ↦
              elim (Option-cases
                (vehicle_trip trip_id_to_pk trip_pk_to_vehicle_id v.id v.trip_id)) [
                  | inl no_trip ↦ rw (first, free, no_trip) (rows-new seen' trips vs k ids.1 has')
                  | inr (trip_pk, trip) ↦
                      rw (first, free, trip)
                        (ground (
                          arith,
                          ids.0,
                          string_keys.same_iff v.id k,
                          rows-new seen' (insert_trip v.trip_id trip_pk trips) vs k ids.1 has',
                        ))
                ]
        ]
      ]

  rows-DistinctIds :
      (seen trips : Map String Bool) (vs : List (Vehicle R))
      → HasIds vs
      → DistinctIds (rows seen trips vs)
  unfolding insert_vehicle_rows insert_vehicle_params null_if_empty_string
  rows-DistinctIds seen trips [] ids = tt
  rows-DistinctIds seen trips (v ∷ vs) ids =
      let seen' = insert v.id true seen in
      let has' : contains (keys seen') v.id ≡ true =
        ground (arith, contains-keys-insert v.id v.id true seen, string_keys.same_iff v.id v.id) in
      elim (Bool-cases (contains (keys seen) v.id)) [
        | inl duplicate ↦ rw duplicate (rows-DistinctIds seen trips vs ids.1)
        | inr first ↦ elim (Bool-cases (contains (keys trips) v.trip_id)) [
          | inl taken ↦ rw (first, taken) (rows-DistinctIds seen' trips vs ids.1)
          | inr free ↦
              elim (Option-cases
                (vehicle_trip trip_id_to_pk trip_pk_to_vehicle_id v.id v.trip_id)) [
                  | inl no_trip ↦ rw (first, free, no_trip) (rows-DistinctIds seen' trips vs ids.1)
                  | inr (trip_pk, trip) ↦
                      let trips' = insert_trip v.trip_id trip_pk trips in
                      rw (first, free, trip)
                        (
                          (v.id, ground (arith, ids.0), rows-new seen' trips' vs v.id ids.1 has'),
                          rows-DistinctIds seen' trips' vs ids.1,
                        )
                ]
        ]
      ]

  -- The vehicles that an update inserts have IDs, and these are distinct, whatever the feed holds.
  pub inserted-DistinctIds :
      (vehicles : List (Vehicle R))
      → DistinctIds (
          insert_vehicle_rows system_pk feed_pk trip_id_to_pk trip_pk_to_vehicle_id stop_id_to_pk []
            []
            (valid_vehicles vehicles))
  inserted-DistinctIds vehicles =
      rows-DistinctIds [] [] (valid_vehicles vehicles) (valid_vehicles-HasIds vehicles)

-- Every row is of a system, whose primary key is not 0.
abbrev pub InSystem : List VehicleRow → Type 0
InSystem [] = Unit
InSystem (row ∷ rs) = (0 < row.system_pk) × InSystem rs

no_system-delete :
    (feed_pk : ℕ) (rs : List VehicleRow)
    → InSystem rs
    → delete_vehicles
        (record { system_pk = 0; feed_pk = feed_pk; vehicle_ids = []; trip_pks = [] })
        rs
      ≡ rs
unfolding delete_vehicles
no_system-delete feed_pk [] h = refl
no_system-delete feed_pk (row ∷ rs) h =
    ground (arith, nat_same_iff row.system_pk 0, no_system-delete feed_pk rs h.1)

-- A feed without a valid vehicle deletes nothing, since the query is not given the system: all the
-- vehicles that the feed had before stay.
pub no_vehicles-delete :
    {R : Type 0} (system_pk feed_pk : ℕ) (trip_id_to_pk : Map String ℕ)
    (vehicles : List (Vehicle R)) (table : List VehicleRow)
    → valid_vehicles vehicles ≡ []
    → InSystem table
    → delete_vehicles
        (vehicles_to_delete system_pk feed_pk trip_id_to_pk (valid_vehicles vehicles))
        table
      ≡ table
unfolding vehicles_to_delete
no_vehicles-delete {R} system_pk feed_pk trip_id_to_pk vehicles table nothing rows =
    rw nothing (no_system-delete feed_pk table rows)
