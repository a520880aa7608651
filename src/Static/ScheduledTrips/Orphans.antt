-- ===== src/Static/ScheduledTrips/Orphans.antt =====
-- Stop times of trips that are not inserted.
use mathlib.Core.List.Memᴰ
use Prim.Native.String.{String}
use mathlib.Core.Path.{subst}
use transiter.Base.{
  List, Memᴰ, Option-cases, [], ap, arith, contains, false, inl, inr, map, nat_keys, nodup, none,
  refl, some, string_keys, sym, true, ℕ, ◌%◌, ◌++◌, ◌==◌, ◌∙◌, ◌∷◌, ◌≡◌, ◌⊎◌,
}
use transiter.Base.Int.{int32_of_uint32, int_keys}
use transiter.Base.Maps.{Map, lookup}
use transiter.NyctSubway.Rules.{some_injective}
use transiter.Static.Rows.{null_if_empty_string}
use transiter.Static.ScheduledTrips.{
  InsertTrip, StaticStopTime, StaticTrip, all_stop_time_rows, stop_time_row, stop_time_rows,
  trip_row, trip_rows, zero_if_none,
}

contains_id :
    {R : Type 0} (trips : List (StaticTrip R)) (t : StaticTrip R)
    → Memᴰ t trips
    → contains (map (λ (t : StaticTrip R). t.id) trips) t.id ≡ true
contains_id [] t m = absurd (Memᴰ.not-nil m)
contains_id (x ∷ trips) t m = elim (Memᴰ.cases_cons m) [
  | inl same ↦ rw same (ground (arith, string_keys.same_iff x.id x.id))
  | inr later ↦ ground (arith, contains_id trips t later)
]

module _ {R : Type 0} (route_id_to_pk service_id_to_pk shape_id_to_pk : Map String ℕ) where
  abbrev pub inserted_ids : List (StaticTrip R) → List String
  inserted_ids trips =
      map (λ (r : InsertTrip R). r.id)
        (trip_rows route_id_to_pk service_id_to_pk shape_id_to_pk trips)

  -- The route or the service of the trip has no primary key.
  abbrev pub LacksParent : StaticTrip R → Type 0
  LacksParent t =
      (lookup t.route_id route_id_to_pk ≡ none) ⊎ (lookup t.service_id service_id_to_pk ≡ none)

  trip_row-LacksParent :
      (t : StaticTrip R)
      → LacksParent t
      → trip_row route_id_to_pk service_id_to_pk shape_id_to_pk t ≡ none
  unfolding trip_row
  trip_row-LacksParent t (inl no_route) = rw (no_route, trip_row) refl
  trip_row-LacksParent t (inr no_service) = elim (Option-cases (lookup t.route_id route_id_to_pk)) [
    | inl no_route ↦ rw (no_route, trip_row) refl
    | inr (route_pk, has_route) ↦ rw (has_route, no_service, trip_row) refl
  ]

  trip_row-id :
      (t : StaticTrip R) (row : InsertTrip R)
      → trip_row route_id_to_pk service_id_to_pk shape_id_to_pk t ≡ some row
      → row.id ≡ t.id
  unfolding trip_row
  trip_row-id t row e = elim (Option-cases (lookup t.route_id route_id_to_pk)) [
    | inl no_route ↦ absurd (cc (rw (no_route, trip_row) at e))
    | inr (route_pk, has_route) ↦ elim (Option-cases (lookup t.service_id service_id_to_pk)) [
      | inl no_service ↦ absurd (cc (rw (has_route, no_service, trip_row) at e))
      | inr (service_pk, has_service) ↦
          ap (λ (r : InsertTrip R). r.id)
            (sym (some_injective (rw (has_route, has_service, trip_row) at e)))
    ]
  ]

  ids-skipped :
      (t : StaticTrip R) (trips : List (StaticTrip R))
      → trip_row route_id_to_pk service_id_to_pk shape_id_to_pk t ≡ none
      → inserted_ids (t ∷ trips) ≡ inserted_ids trips
  unfolding trip_rows
  ids-skipped t trips skips = rw (skips, inserted_ids, trip_rows) refl

  ids-made :
      (t : StaticTrip R) (trips : List (StaticTrip R)) (row : InsertTrip R)
      → trip_row route_id_to_pk service_id_to_pk shape_id_to_pk t ≡ some row
      → inserted_ids (t ∷ trips) ≡ t.id ∷ inserted_ids trips
  unfolding trip_rows
  ids-made t trips row made =
      rw (made, inserted_ids, trip_rows)
        (ap (λ id. id ∷ inserted_ids trips) (trip_row-id t row made))

  -- Only IDs of the feed are inserted.
  contains-inserted_ids :
      (trips : List (StaticTrip R)) (id : String)
      → contains (map (λ (t : StaticTrip R). t.id) trips) id ≡ false
      → contains (inserted_ids trips) id ≡ false
  contains-inserted_ids [] id h = unfold trip_rows in refl
  contains-inserted_ids (t ∷ trips) id h =
      let rest = contains-inserted_ids trips id (ground (arith, h)) in
      elim (Option-cases (trip_row route_id_to_pk service_id_to_pk shape_id_to_pk t)) [
        | inl skips ↦ rw (ids-skipped t trips skips) rest
        | inr (row, made) ↦ rw (ids-made t trips row made) (ground (arith, h, rest))
      ]

  skipped_id :
      (trips : List (StaticTrip R)) (t : StaticTrip R)
      → nodup (map (λ (t : StaticTrip R). t.id) trips) ≡ true
      → Memᴰ t trips
      → LacksParent t
      → contains (inserted_ids trips) t.id ≡ false
  skipped_id [] t unique m lacks = absurd (Memᴰ.not-nil m)
  skipped_id (x ∷ trips) t unique m lacks = elim (Memᴰ.cases_cons m) [
    | inl same ↦
        let skips = trip_row-LacksParent x (subst LacksParent same lacks) in
        rw (ids-skipped x trips skips, same)
          (contains-inserted_ids trips x.id (ground (arith, unique)))
    | inr later ↦
        let rest = skipped_id trips t (ground (arith, unique)) later lacks in
        let inside = contains_id trips t later in
        let apart : (x.id == t.id) ≡ false =
          ground (arith, unique, inside, string_keys.same_iff x.id t.id) in
        elim (Option-cases (trip_row route_id_to_pk service_id_to_pk shape_id_to_pk x)) [
          | inl skips ↦ rw (ids-skipped x trips skips) rest
          | inr (row, made) ↦ rw (ids-made x trips row made) (ground (arith, apart, rest))
        ]
  ]

-- A stop time of a trip has its row, with the primary key that the map gives for the trip.
Memᴰ-stop_time_rows :
    {R : Type 0} (stop_id_to_pk : Map String ℕ) (trip_pk : ℕ) (s : StaticStopTime R)
    (ss : List (StaticStopTime R))
    → Memᴰ s ss
    → Memᴰ (stop_time_row stop_id_to_pk trip_pk s) (stop_time_rows stop_id_to_pk trip_pk ss)
unfolding stop_time_rows
Memᴰ-stop_time_rows stop_id_to_pk trip_pk s [] m = absurd (Memᴰ.not-nil m)
Memᴰ-stop_time_rows stop_id_to_pk trip_pk s (x ∷ ss) m = elim (Memᴰ.cases_cons m) [
  | inl same ↦ Memᴰ.head (ap (stop_time_row stop_id_to_pk trip_pk) same)
  | inr later ↦ Memᴰ.tail (Memᴰ-stop_time_rows stop_id_to_pk trip_pk s ss later)
]

Memᴰ-append_left : {A : Type 0} (a : A) (xs ys : List A) → Memᴰ a xs → Memᴰ a (xs ++ ys)
Memᴰ-append_left a [] ys m = absurd (Memᴰ.not-nil m)
Memᴰ-append_left a (x ∷ xs) ys m = elim (Memᴰ.cases_cons m) [
  | inl same ↦ Memᴰ.head same
  | inr later ↦ Memᴰ.tail (Memᴰ-append_left a xs ys later)
]

Memᴰ-append_right : {A : Type 0} (a : A) (xs ys : List A) → Memᴰ a ys → Memᴰ a (xs ++ ys)
Memᴰ-append_right a [] ys m = m
Memᴰ-append_right a (x ∷ xs) ys m = Memᴰ.tail (Memᴰ-append_right a xs ys m)

Memᴰ-all_stop_time_rows :
    {R : Type 0} (stop_id_to_pk trip_id_to_pk : Map String ℕ) (t : StaticTrip R)
    (s : StaticStopTime R) (trips : List (StaticTrip R))
    → Memᴰ t trips
    → Memᴰ s t.stop_times
    → Memᴰ
        (stop_time_row stop_id_to_pk (zero_if_none (lookup t.id trip_id_to_pk)) s)
        (all_stop_time_rows stop_id_to_pk trip_id_to_pk trips)
unfolding all_stop_time_rows
Memᴰ-all_stop_time_rows stop_id_to_pk trip_id_to_pk t s [] m inside = absurd (Memᴰ.not-nil m)
Memᴰ-all_stop_time_rows stop_id_to_pk trip_id_to_pk t s (x ∷ trips) m inside =
    let own =
      stop_time_rows stop_id_to_pk (zero_if_none (lookup x.id trip_id_to_pk)) x.stop_times in
    let others = all_stop_time_rows stop_id_to_pk trip_id_to_pk trips in
    elim (Memᴰ.cases_cons m) [
      | inl same ↦ Memᴰ-append_left _ own others (
          rw same (
            Memᴰ-stop_time_rows stop_id_to_pk (zero_if_none (lookup x.id trip_id_to_pk)) s
              x.stop_times (subst (λ (u : StaticTrip _). Memᴰ s u.stop_times) same inside)))
      | inr later ↦
          Memᴰ-append_right _ own others
            (Memᴰ-all_stop_time_rows stop_id_to_pk trip_id_to_pk t s trips later inside)
    ]

-- In a feed whose trips have distinct IDs, a trip whose route or service has no primary key, and that
-- the system does not have from before, is skipped; where the map that is read after the insertion
-- has no other IDs than those from before and the inserted ones, each of its stop times is inserted
-- all the same, for the trip 0.
pub skipped_trip-stop_times :
    {R : Type 0} (route_id_to_pk service_id_to_pk shape_id_to_pk stop_id_to_pk : Map String ℕ)
    (old trip_id_to_pk : Map String ℕ) (trips : List (StaticTrip R)) (t : StaticTrip R)
    (s : StaticStopTime R)
    → nodup (map (λ (t : StaticTrip R). t.id) trips) ≡ true
    → Memᴰ t trips
    → Memᴰ s t.stop_times
    → LacksParent route_id_to_pk service_id_to_pk shape_id_to_pk t
    → lookup t.id old ≡ none
    → ((id : String)
        → contains (inserted_ids route_id_to_pk service_id_to_pk shape_id_to_pk trips) id ≡ false
        → lookup id trip_id_to_pk ≡ lookup id old)
    → (contains (inserted_ids route_id_to_pk service_id_to_pk shape_id_to_pk trips) t.id ≡ false)
      × Memᴰ
          (record {
            trip_pk = 0;
            stop_pk = zero_if_none (lookup s.stop_id stop_id_to_pk);
            stop_sequence = int32_of_uint32 (s.stop_sequence % 4_294_967_296);
            headsign = null_if_empty_string s.headsign;
            rest = s.rest;
          })
          (all_stop_time_rows stop_id_to_pk trip_id_to_pk trips)
skipped_trip-stop_times route_id_to_pk service_id_to_pk shape_id_to_pk stop_id_to_pk old
      trip_id_to_pk trips t s unique m inside lacks new read =
    let skipped =
      skipped_id route_id_to_pk service_id_to_pk shape_id_to_pk trips t unique m lacks in
    let zero_pk : zero_if_none (lookup t.id trip_id_to_pk) ≡ 0 =
      ap zero_if_none (read t.id skipped ∙ new) in
    (
      skipped,
      subst
          (λ pk.
            Memᴰ (stop_time_row stop_id_to_pk pk s)
              (all_stop_time_rows stop_id_to_pk trip_id_to_pk trips))
          zero_pk (Memᴰ-all_stop_time_rows stop_id_to_pk trip_id_to_pk t s trips m inside),
    )
