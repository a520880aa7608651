-- ===== src/Realtime/UpdateTrips/Active.antt =====
-- The trips whose stop times an update of `updateTrips` writes, and those that it keeps.
use Prim.{Unit, tt}
use Prim.Native.String.{String}
use transiter.Base.{
  Bool, Bool-cases, List, Option, Option-cases, [], arith, contains, contains-append, inl, inr,
  nat_keys, nat_same_iff, none, some, string_keys, sym, true, ℕ, ◌&&◌, ◌++◌, ◌==◌, ◌∷◌, ◌≡◌, ◌⊎◌,
}
use transiter.Base.Int.{int_keys}
use transiter.Base.Maps.{Map, contains-keys-insert, keys, lookup, lookup-insert}
use transiter.Realtime.StopTimes.{calculate_stop_time_changes}
use transiter.Realtime.Trips.{
  ExistingTrip, InsertRealtimeTrip, Trip, TripChanges, TripUid, activate, change_trips,
  insert_params, route_of, uid_keys, with_route,
}
use transiter.Realtime.Types.{HeadsignRule, MarkPast, StopTimeRow}
use transiter.Realtime.UpdateTrips.{
  StagedTrips, no_changes, nothing_staged, stage_trip, stage_trips,
}
use transiter.Static.Upsert.{pk_or_zero}

abbrev pub marked_pks : List MarkPast → List ℕ
marked_pks [] = []
marked_pks (m ∷ ms) = m.trip_pk ∷ marked_pks ms

marked_pks-snoc :
    (ms : List MarkPast) (m : MarkPast) (pk : ℕ)
    → contains (marked_pks (ms ++ m ∷ [])) pk ≡ true
    → (contains (marked_pks ms) pk ≡ true) ⊎ (m.trip_pk ≡ pk)
marked_pks-snoc [] m pk has = inr ((nat_same_iff m.trip_pk pk).0 (ground arith))
marked_pks-snoc (k ∷ ms) m pk has = elim (Bool-cases (k.trip_pk == pk)) [
  | inl same ↦ inl (ground arith)
  | inr other ↦ elim (marked_pks-snoc ms m pk (ground arith)) [
    | inl earlier ↦ inl (ground arith)
    | inr last ↦ inr last
  ]
]

-- Every trip that is marked is among the given ones.
abbrev pub MarksAmong : List ℕ → StagedTrips → Type 0
MarksAmong pks s =
    (pk : ℕ)
    → contains (marked_pks s.staged.mark_stop_times_past) pk ≡ true
    → contains pks pk ≡ true

-- The trips of a map have a primary key that is among the given ones.
abbrev AllAmong : List ℕ → Map TripUid ℕ → Map TripUid Trip → Type 0
AllAmong pks trip_uid_to_pk trips =
    (uid : TripUid)
    → contains (keys trips) uid ≡ true
    → contains pks (pk_or_zero (lookup uid trip_uid_to_pk)) ≡ true

module _ (reassign : Bool) (stop_id_to_pk : Map String ℕ) (rules : Map ℕ (List HeadsignRule))
    (trip_uid_to_pk : Map TripUid ℕ) (existing_stop_times : Map TripUid (List StopTimeRow))
    (pks : List ℕ) where
  stage_trip-MarksAmong :
      (uid : TripUid) (trip : Trip) (s : StagedTrips)
      → contains pks (pk_or_zero (lookup uid trip_uid_to_pk)) ≡ true
      → MarksAmong pks s
      → MarksAmong pks
          (stage_trip reassign stop_id_to_pk rules trip_uid_to_pk existing_stop_times uid trip s)
  unfolding stage_trip calculate_stop_time_changes
  stage_trip-MarksAmong uid trip s h m pk has =
      elim (marked_pks-snoc s.staged.mark_stop_times_past _ pk has) [
        | inl earlier ↦ m pk earlier
        | inr last ↦ rw (sym last) h
      ]

  stage_trips-MarksAmong :
      (trips : Map TripUid Trip) (s : StagedTrips)
      → AllAmong pks trip_uid_to_pk trips
      → MarksAmong pks s
      → MarksAmong pks
          (stage_trips reassign stop_id_to_pk rules trip_uid_to_pk existing_stop_times trips s)
  unfolding stage_trips
  stage_trips-MarksAmong [] s h m = m
  stage_trips-MarksAmong ((uid, trip) ∷ rest) s h m =
      stage_trips-MarksAmong rest
        (stage_trip reassign stop_id_to_pk rules trip_uid_to_pk existing_stop_times uid trip s)
        (λ u has. h u (ground arith))
        (stage_trip-MarksAmong uid trip s (h uid (ground (arith, uid_keys.same_iff uid uid))) m)

module _ {Database : Type 0} (insert_trip : InsertRealtimeTrip → Database → Option (ℕ × Database))
    (feed_pk : ℕ) (trip_id_to_route_pk route_id_to_pk : Map String ℕ)
    (existing_trips : Map TripUid ExistingTrip) where
  abbrev IsActive : TripChanges Database → Type 0
  IsActive c = AllAmong c.active_trip_pks c.trip_uid_to_pk c.trip_uid_to_trip

  abbrev StaysActive : Option (TripChanges Database) → Type 0
  StaysActive none = Unit
  StaysActive (some c) = IsActive c

  activate-IsActive :
      (uid : TripUid) (trip : Trip) (pk : ℕ) (c : TripChanges Database)
      → IsActive c
      → IsActive (
          activate insert_trip feed_pk trip_id_to_route_pk route_id_to_pk existing_trips uid trip pk
            c)
  activate-IsActive uid trip pk c h u has =
      rw (contains-append, lookup-insert)
        (ground
          (arith, h u, contains-keys-insert uid u trip c.trip_uid_to_trip, nat_same_iff pk pk))

  with_route-StaysActive :
      (route : Option ℕ) (trip : Trip) (c : TripChanges Database)
      → IsActive c
      → StaysActive (
          with_route insert_trip feed_pk trip_id_to_route_pk route_id_to_pk existing_trips route
            trip c)
  with_route-StaysActive none trip c h = h
  with_route-StaysActive (some route_pk) trip c h =
      let uid : TripUid = record { route_pk = route_pk; id = trip.id } in
      elim (Bool-cases (contains (keys c.seen_uids) uid)) [
        | inl again ↦ rw again h
        | inr first ↦ elim (Option-cases (lookup uid existing_trips)) [
          | inl absent ↦
              let row =
                insert_params insert_trip feed_pk trip_id_to_route_pk route_id_to_pk existing_trips
                  uid trip in
              elim (Option-cases (insert_trip row c.database)) [
                | inl fails ↦ rw (first, absent, fails) tt
                | inr ((pk, d), works) ↦
                    rw (first, absent, works) (activate-IsActive uid trip pk c h)
              ]
          | inr (existing, present) ↦
              elim (Bool-cases
                (existing.gtfs_hash == trip.gtfs_hash && existing.feed_pk == feed_pk)) [
                  | inl same_trip ↦
                      rw (first, present, same_trip)
                        (λ u has. rw (contains-append) (ground (arith, h u)))
                  | inr other_trip ↦
                      rw (first, present, other_trip) (activate-IsActive uid trip existing.pk c h)
                ]
        ]
      ]

  change_trips-StaysActive :
      (trips : List Trip) (c : TripChanges Database)
      → IsActive c
      → StaysActive (
          change_trips insert_trip feed_pk trip_id_to_route_pk route_id_to_pk existing_trips trips
            c)
  unfolding change_trips
  change_trips-StaysActive [] c h = h
  change_trips-StaysActive (trip ∷ trips) c h =
      let route =
        route_of insert_trip feed_pk trip_id_to_route_pk route_id_to_pk existing_trips trip in
      let next = with_route-StaysActive route trip c h in
      elim (Option-cases (
        with_route insert_trip feed_pk trip_id_to_route_pk route_id_to_pk existing_trips route trip
          c)) [
            | inl fails ↦ rw (fails, change_trips) tt
            | inr (c', works) ↦
                rw (works, change_trips) (change_trips-StaysActive trips c' (rw works at next))
          ]

  -- Where the loop over the trips of a feed succeeds, every trip whose stop times the staged updates
  -- mark is among the trips that the deletion of stale trips keeps.
  pub stage_trips-active :
      (trips : List Trip) (d : Database) (c : TripChanges Database)
      → change_trips insert_trip feed_pk trip_id_to_route_pk route_id_to_pk existing_trips trips
          (no_changes d)
        ≡ some c
      → (reassign : Bool) (stop_id_to_pk : Map String ℕ) (rules : Map ℕ (List HeadsignRule))
        (existing_stop_times : Map TripUid (List StopTimeRow))
      → MarksAmong c.active_trip_pks (
          stage_trips reassign stop_id_to_pk rules c.trip_uid_to_pk existing_stop_times
            c.trip_uid_to_trip nothing_staged)
  stage_trips-active trips d c works reassign stop_id_to_pk rules existing_stop_times =
      let start = change_trips-StaysActive trips (no_changes d) (λ u has. ground arith) in
      stage_trips-MarksAmong reassign stop_id_to_pk rules c.trip_uid_to_pk existing_stop_times
        c.active_trip_pks c.trip_uid_to_trip nothing_staged (rw works at start)
        (λ pk has. ground arith)
