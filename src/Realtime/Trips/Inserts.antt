-- ===== src/Realtime/Trips/Inserts.antt =====
-- The trips that the loop of `updateTrips` inserts.
use Prim.Native.String.{String}
use transiter.Base.{
  Bool-cases, List, Option, Option-cases, [], arith, contains, false, if◌then◌else◌, inl, inr,
  length, nat_keys, none, refl, some, string_keys, true, ℕ, ◌&&◌, ◌==◌, ◌||◌, ◌∷◌, ◌≡◌,
}
use transiter.Base.Int.{int_keys}
use transiter.Base.Maps.{Map, contains-keys, contains-keys-insert, insert, keys, lookup}
use transiter.Realtime.Trips.{
  ExistingTrip, InsertRealtimeTrip, Trip, TripChanges, TripUid, change_trips, route_of, uid_keys,
  with_route,
}

-- A table of trips that refuses a second row for a trip, as the database does.
unfoldable pub insert_unique_trip : InsertRealtimeTrip → List TripUid → Option (ℕ × List TripUid)
insert_unique_trip row table =
    let uid : TripUid = record { route_pk = row.route_pk; id = row.id } in
    if contains table uid then none else some (length table, uid ∷ table)

module _ (feed_pk : ℕ) (trip_id_to_route_pk route_id_to_pk : Map String ℕ)
    (existing_trips : Map TripUid ExistingTrip) where
  -- A trip of the table was there before the loop, or the loop has seen it.
  abbrev pub IsKnown : TripChanges (List TripUid) → Type 0
  IsKnown c =
      (uid : TripUid)
      → contains c.database uid ≡ true
      → (contains (keys existing_trips) uid || contains (keys c.seen_uids) uid) ≡ true

  abbrev pub Succeeds : Option (TripChanges (List TripUid)) → Type 0
  Succeeds o = (c : TripChanges (List TripUid)) × (o ≡ some c) × IsKnown c

  -- Another trip that was seen keeps what is known.
  see-IsKnown :
      (uid : TripUid) (c : TripChanges (List TripUid))
      → IsKnown c
      → IsKnown (record c { seen_uids = insert uid true c.seen_uids })
  see-IsKnown uid c h u has = ground (arith, h u has, contains-keys-insert uid u true c.seen_uids)

  with_route-Succeeds :
      (route : Option ℕ) (trip : Trip) (c : TripChanges (List TripUid))
      → IsKnown c
      → Succeeds (
          with_route insert_unique_trip feed_pk trip_id_to_route_pk route_id_to_pk existing_trips
            route trip c)
  unfolding insert_unique_trip
  with_route-Succeeds none trip c h = (c, refl, h)
  with_route-Succeeds (some route_pk) trip c h =
      let uid : TripUid = record { route_pk = route_pk; id = trip.id } in
      let seen = see-IsKnown uid c h in
      elim (Bool-cases (contains (keys c.seen_uids) uid)) [
        | inl again ↦ rw again (c, refl, h)
        | inr first ↦ elim (Option-cases (lookup uid existing_trips)) [
          | inl absent ↦
              let gone : contains (keys existing_trips) uid ≡ false =
                rw absent at (contains-keys uid existing_trips) in
              let missing : contains c.database uid ≡ false =
                elim (Bool-cases (contains c.database uid)) [
                  | inl has ↦ absurd (ground (arith, h uid has, gone, first))
                  | inr no_row ↦ no_row
                ] in
              rw (first, absent, missing)
                (_, refl, λ u has. ground (arith, h u, contains-keys-insert uid u true c.seen_uids))
          | inr (existing, present) ↦
              elim (Bool-cases
                (existing.gtfs_hash == trip.gtfs_hash && existing.feed_pk == feed_pk)) [
                  | inl unchanged_trip ↦ rw (first, present, unchanged_trip) (_, refl, seen)
                  | inr changed_trip ↦ rw (first, present, changed_trip) (_, refl, seen)
                ]
        ]
      ]

  -- The loop never inserts a trip that the database has, if it was given the trips of the database:
  -- the insertions succeed in a table that refuses a second row for a trip, whatever the feed holds.
  pub change_trips-Succeeds :
      (trips : List Trip) (c : TripChanges (List TripUid))
      → IsKnown c
      → Succeeds (
          change_trips insert_unique_trip feed_pk trip_id_to_route_pk route_id_to_pk existing_trips
            trips c)
  unfolding change_trips
  change_trips-Succeeds [] c h = (c, refl, h)
  change_trips-Succeeds (trip ∷ trips) c h =
      let (c', works, h') =
        with_route-Succeeds
          (route_of insert_unique_trip feed_pk trip_id_to_route_pk route_id_to_pk existing_trips
            trip)
          trip c h in
      let (last, ends, known) = change_trips-Succeeds trips c' h' in
      (last, rw (works, change_trips) ends, known)
