-- ===== src/ServiceMaps/RealtimeMaps/Runs.antt =====
-- The trips that `getTripStopPks` finds in the rows of a query.
use mathlib.Core.List.{append-nil, append_assoc, reverse}
use transiter.Base.{
  Bool, List, List-cases, [], ap, arith, false, if◌then◌else◌, inl, inr, nat_keys, refl,
  string_keys, sym, true, ℕ, ◌++◌, ◌==◌, ◌∙◌, ◌∷◌, ◌≡◌,
}
use transiter.Base.Int.{int_keys, negsuc, ℤ}
use transiter.ServiceMaps.RealtimeMaps.{
  TripStopRow, TripStops, add_row, add_rows, get_trip_stop_pks, in_direction, no_trip_stops,
  update_result,
}
use transiter.ServiceMaps.Reverse.{reverse_slice_lem}

-- The rows of one trip: its primary key, its direction, its first stop and the others.
pub record Run : Type 0 where
  pub trip_pk : ℤ
  pub direction_id : Bool
  pub first_stop : ℕ
  pub other_stops : List ℕ

abbrev pub run_rows : ℤ → Bool → List ℕ → List TripStopRow
run_rows trip_pk direction_id [] = []
run_rows trip_pk direction_id (pk ∷ pks) =
    record { trip_pk = trip_pk; direction_id = direction_id; stop_pk = pk }
    ∷ run_rows trip_pk direction_id pks

-- The rows of the trips one after the other.
abbrev pub all_rows : List Run → List TripStopRow
all_rows [] = []
all_rows (r ∷ rs) = run_rows r.trip_pk r.direction_id (r.first_stop ∷ r.other_stops) ++ all_rows rs

-- Neighbours in the list are different trips, and the first is not the one before.
abbrev pub AreApart : ℤ → List Run → Type 0
AreApart last [] = Unit
AreApart last (r ∷ rs) = ((r.trip_pk == last) ≡ false) × AreApart r.trip_pk rs

-- The stops of the trips, those of direction false from the last to the first.
abbrev pub stops_of_runs : List Run → List (List ℕ)
stops_of_runs [] = []
stops_of_runs (r ∷ rs) =
    (if r.direction_id
      then r.first_stop ∷ r.other_stops
      else reverse (r.first_stop ∷ r.other_stops))
    ∷ stops_of_runs rs

in_direction-reverse :
    (d : Bool) (pks : List ℕ) → in_direction d pks ≡ (if d then pks else reverse pks)
in_direction-reverse true pks = refl
in_direction-reverse false pks = reverse_slice_lem pks

-- The state inside a trip.
abbrev inside : ℤ → Bool → List ℕ → List (List ℕ) → TripStops
inside trip_pk d pks result = record {
  current_trip_pk = trip_pk;
  current_direction_id = d;
  current_stop_pks = pks;
  result = result;
}

-- A row of the same trip adds its stop.
add_row-same :
    (k : ℤ) (d : Bool) (before : List ℕ) (pk : ℕ) (result : List (List ℕ))
    → add_row (inside k d before result) (record { trip_pk = k; direction_id = d; stop_pk = pk })
      ≡ inside k d (before ++ pk ∷ []) result
unfolding add_row
add_row-same k d before pk result =
    let same : (k == k) ≡ true = (int_keys.same_iff k k).1 refl in rw same refl

add_rows-run :
    (k : ℤ) (d : Bool) (before pks : List ℕ) (result : List (List ℕ)) (rest : List TripStopRow)
    → add_rows (inside k d before result) (run_rows k d pks ++ rest)
      ≡ add_rows (inside k d (before ++ pks) result) rest
unfolding add_rows add_row
add_rows-run k d before [] result rest =
    ap (λ pks. add_rows (inside k d pks result) rest) (sym (append-nil before))
add_rows-run k d before (pk ∷ pks) result rest =
    ap (λ s. add_rows s (run_rows k d pks ++ rest)) (add_row-same k d before pk result)
    ∙ add_rows-run k d (before ++ pk ∷ []) pks result rest
    ∙ ap (λ l. add_rows (inside k d l result) rest) (append_assoc before (pk ∷ []) pks)

update_result-empty : (t : TripStops) → (update_result t).current_stop_pks ≡ []
unfolding update_result
update_result-empty t = elim (List-cases t.current_stop_pks) [
  | inl e ↦ ground arith
  | inr (x, xs, e) ↦ ground arith
]

-- The first row of the next trip ends the trip before it.
add_row-other :
    (t : TripStops) (k : ℤ) (d : Bool) (pk : ℕ)
    → (k == t.current_trip_pk) ≡ false
    → add_row t (record { trip_pk = k; direction_id = d; stop_pk = pk })
      ≡ inside k d (pk ∷ []) (update_result t).result
unfolding add_row
add_row-other t k d pk other =
    rw other (ap (λ l. inside k d (l ++ pk ∷ []) (update_result t).result) (update_result-empty t))

last_result :
    (k : ℤ) (d : Bool) (pk : ℕ) (pks : List ℕ) (result others : List (List ℕ))
    → (update_result (inside k d (pk ∷ pks) result)).result ++ others
      ≡ result ++ (if d then pk ∷ pks else reverse (pk ∷ pks)) ∷ others
unfolding update_result
last_result k d pk pks result others =
    append_assoc result (in_direction d (pk ∷ pks) ∷ []) others
    ∙ ap (λ l. result ++ l ∷ others) (in_direction-reverse d (pk ∷ pks))

-- From any state on.
add_rows-all :
    (t : TripStops) (rs : List Run)
    → AreApart t.current_trip_pk rs
    → (update_result (add_rows t (all_rows rs))).result
      ≡ (update_result t).result ++ stops_of_runs rs
unfolding add_rows
add_rows-all t [] apart = sym (append-nil (update_result t).result)
add_rows-all t (r ∷ rs) apart =
    let last =
      inside r.trip_pk r.direction_id (r.first_stop ∷ r.other_stops) (update_result t).result in
    let rest = all_rows rs in
    ap
      (λ s.
        (update_result
          (add_rows s (run_rows r.trip_pk r.direction_id r.other_stops ++ rest))).result)
      (add_row-other t r.trip_pk r.direction_id r.first_stop apart.0)
    ∙ ap (λ s. (update_result s).result)
        (add_rows-run r.trip_pk r.direction_id (r.first_stop ∷ []) r.other_stops
          (update_result t).result rest)
    ∙ add_rows-all last rs apart.1
    ∙ last_result r.trip_pk r.direction_id r.first_stop r.other_stops (update_result t).result
        (stops_of_runs rs)

-- From the rows of trips one after the other, where neighbours are different trips and the first
-- does not have the primary key -1, the stops of each trip are found: in the order of the rows in
-- direction true, and reversed in direction false.
pub get_trip_stop_pks_lem :
    (rs : List Run) → AreApart (negsuc 0) rs → get_trip_stop_pks (all_rows rs) ≡ stops_of_runs rs
unfolding get_trip_stop_pks
get_trip_stop_pks_lem rs apart = add_rows-all no_trip_stops rs apart ∙ unfold update_result in refl
