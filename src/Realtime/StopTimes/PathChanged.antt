-- ===== src/Realtime/StopTimes/PathChanged.antt =====
-- The flag that `calculateStopTimeChanges` returns. The code compares the primary key of a stop
-- with that of an existing stop time (`stopPk != existingStopTime.Pk`), not with the stop of it.
use Prim.Native.String.{String}
use transiter.Base.{
  Bool, Bool-cases, List, Option, Option-cases, [], arith, inl, inr, nat_keys, nat_same_iff, none,
  not, refl, some, string_keys, true, ℕ, ◌&&◌, ◌∷◌, ◌≡◌, ◌≢◌,
}
use transiter.Base.Int.{int32_of_uint32, int_keys, ltb_ℤ, negsuc, pos, uint32_of_int64, ℤ}
use transiter.Base.Maps.{Map, insert, lookup, lookup-insert}
use transiter.Graph.Types.{edge_keys}
use transiter.Realtime.Sequences.{
  assign, current_sequences, next_sequence, populate, populate_stop_sequences,
}
use transiter.Realtime.StopTimes.{
  Changes, StagedUpdates, calculate_stop_time_changes, change_known, change_stop, change_stops,
  current_stop_sequence, delete_unmatched, index_rows, start_changes,
}
use transiter.Realtime.Types.{HeadsignRule, StopTimeRow, StopTimeUpdate, stop_pk_of}

-- No row of a map has a primary key.
abbrev NoPk : ℕ → Map ℤ StopTimeRow → Type 0
NoPk pk m = (k : ℤ) (row : StopTimeRow) → lookup k m ≡ some row → row.pk ≢ pk

-- The stop of the first update with a stop that the system has.
abbrev pub first_known : Map String ℕ → List StopTimeUpdate → Option ℕ
first_known ids [] = none
first_known ids (u ∷ us) =
    let later = first_known ids us in
    elim (stop_pk_of ids u.stop_id) [ none ↦ later | some pk ↦ some pk ]

assign-sequence :
    (use_feed : Bool) (current : Map ℕ ℤ) (last : ℤ) (pk : ℕ) (feed : Option ℕ)
    → (q : ℕ) × ((assign use_feed current last pk feed).stop_sequence ≡ some q)
unfolding assign
assign-sequence use_feed current last pk none = (_, refl)
assign-sequence use_feed current last pk (some f) =
    elim (Bool-cases (use_feed && ltb_ℤ last (pos f))) [
      | inl used ↦ (f, rw used)
      | inr own ↦ (uint32_of_int64 (next_sequence last (lookup pk current)), rw own)
    ]

delete_unmatched-keeps :
    (current : ℤ) (m : Map ℤ StopTimeRow) (c : Changes)
    → c.path_changed ≡ true
    → (delete_unmatched current m c).path_changed ≡ true
unfolding delete_unmatched
delete_unmatched-keeps current [] c h = h
delete_unmatched-keeps current ((k, row) ∷ rest) c h =
    delete_unmatched-keeps current rest _ (ground arith)

-- No existing stop time has a primary key.
abbrev pub RowsWithout : ℕ → List StopTimeRow → Type 0
RowsWithout pk [] = Unit
RowsWithout pk (row ∷ rows) = (row.pk ≢ pk) × RowsWithout pk rows

index_rows-NoPk :
    (pk : ℕ) (m : Map ℤ StopTimeRow) (rows : List StopTimeRow)
    → NoPk pk m
    → RowsWithout pk rows
    → NoPk pk (index_rows m rows)
unfolding index_rows
index_rows-NoPk pk m [] old new = old
index_rows-NoPk pk m (row ∷ rows) old new =
    index_rows-NoPk pk (insert row.stop_sequence row m) rows
      (λ k r e. ground (arith, lookup-insert row.stop_sequence k row m, old k r, new.0)) new.1

module _ (trip_pk : ℕ) (ids : Map String ℕ) (rules : Map ℕ (List HeadsignRule)) where
  change_known-keeps :
      (o : Option ℕ) (q : Option ℕ) (u : StopTimeUpdate) (c : Changes)
      → c.path_changed ≡ true
      → (change_known trip_pk ids rules o q u c).path_changed ≡ true
  unfolding change_stop
  change_known-keeps none q u c h = h
  change_known-keeps (some pk) none u c h = h
  change_known-keeps (some pk) (some q) u c h = ground arith

  change_stops-keeps :
      (us : List StopTimeUpdate) (c : Changes)
      → c.path_changed ≡ true
      → (change_stops trip_pk ids rules us c).path_changed ≡ true
  unfolding change_stops
  change_stops-keeps [] c h = h
  change_stops-keeps (u ∷ us) c h =
      change_stops-keeps us _ (change_known-keeps (stop_pk_of ids u.stop_id) u.stop_sequence u c h)

  change_stop-changes :
      (pk : ℕ) (sequence : ℤ) (u : StopTimeUpdate) (c : Changes)
      → NoPk pk c.unmatched
      → (change_stop trip_pk ids rules pk sequence u c).path_changed ≡ true
  unfolding change_stop
  change_stop-changes pk sequence u c fresh = elim (Option-cases (lookup sequence c.unmatched)) [
    | inl new ↦ ground arith
    | inr (row, old) ↦ ground (arith, fresh sequence row old, nat_same_iff pk row.pk)
  ]

  -- The first update with a known stop changes the path, if no row has the stop's primary key.
  populated-changes :
      (use_feed : Bool) (current : Map ℕ ℤ) (last : ℤ) (us : List StopTimeUpdate) (pk : ℕ)
      (c : Changes)
      → first_known ids us ≡ some pk
      → NoPk pk c.unmatched
      → (change_stops trip_pk ids rules (populate use_feed ids current last us) c).path_changed
        ≡ true
  unfolding populate change_stops
  populated-changes use_feed current last [] pk c first fresh = ground arith
  populated-changes use_feed current last (u ∷ us) pk c first fresh =
      elim (Option-cases (stop_pk_of ids u.stop_id)) [
        | inl unknown ↦
            rw (unknown, populate)
              (rw (unknown, change_stops)
                (populated-changes use_feed current last us pk c
                  (rw (unknown, first_known) at first) fresh))
        | inr (pk', known) ↦
            let same : pk' ≡ pk = ground arith in
            let (q, e) = assign-sequence use_feed current last pk' u.stop_sequence in
            rw (known, populate)
              (rw (known, e, change_stops)
                (change_stops-keeps
                  (populate use_feed ids current
                    (assign use_feed current last pk' u.stop_sequence).last us)
                  (change_stop trip_pk ids rules pk' (int32_of_uint32 q)
                    (record u { stop_sequence = some q }) c)
                  (change_stop-changes pk' (int32_of_uint32 q) (record u { stop_sequence = some q })
                    c (rw (← same) at fresh))))
      ]

-- If no existing stop time has the number of the first known stop as its own primary key, the path
-- is said to have changed, also where each existing stop time is for the same stop as before.
pub path_changed-of_primary_keys :
    (reassign : Bool) (trip_pk : ℕ) (ids : Map String ℕ) (rules : Map ℕ (List HeadsignRule))
    (updates : List StopTimeUpdate) (existing : List StopTimeRow) (t : StagedUpdates) (pk : ℕ)
    → first_known ids updates ≡ some pk
    → RowsWithout pk existing
    → (calculate_stop_time_changes reassign trip_pk ids rules updates existing t).1 ≡ true
unfolding calculate_stop_time_changes populate_stop_sequences
path_changed-of_primary_keys reassign trip_pk ids rules updates existing t pk first fresh =
    let us = populate_stop_sequences updates existing ids reassign in
    let start = start_changes existing t in
    let c = change_stops trip_pk ids rules us start in
    delete_unmatched-keeps (current_stop_sequence us) c.unmatched c (
      populated-changes trip_pk ids rules (not reassign) (current_sequences [] existing) (negsuc 0)
        updates pk start first
        (index_rows-NoPk pk [] existing (λ k r e. absurd (unfold lookup in cc)) fresh))
