-- ===== src/Realtime/StopTimes.antt =====
-- `calculateStopTimeChanges`: the changes to the stop times of one trip.
pub mod PathChanged
use Prim.Native.String.{String}
use transiter.Base.{
  Bool, List, Option, [], false, if◌then◌else◌, nat_keys, none, not, some, string_keys, true, ℕ,
  ◌++◌, ◌==◌, ◌∷◌,
}
use transiter.Base.Int.{int32_of_uint32, int_keys, ltb_ℤ, pos, ℤ}
use transiter.Base.Maps.{Map, delete, insert, lookup}
use transiter.Graph.Types.{edge_keys}
use transiter.Realtime.Headsigns.{match_headsign}
use transiter.Realtime.Sequences.{populate_stop_sequences}
use transiter.Realtime.Types.{
  HeadsignRule, InsertStopTime, MarkPast, StopTimeRow, StopTimeUpdate, stop_pk_of,
}

-- `stagedUpdates`, the writes to the database that an update collects.
pub record StagedUpdates : Type 0 where
  pub delete_stop_times : List ℕ
  pub insert_stop_times : List InsertStopTime
  pub mark_stop_times_past : List MarkPast

-- The map from stop sequences to existing stop times; the last row with a sequence stays.
unfoldable pub index_rows : Map ℤ StopTimeRow → List StopTimeRow → Map ℤ StopTimeRow
index_rows m [] = m
index_rows m (row ∷ rows) = index_rows (insert row.stop_sequence row m) rows

-- The state of the loop over the updates of the trip.
pub record Changes : Type 0 where
  pub unmatched : Map ℤ StopTimeRow
  pub path_changed : Bool
  pub deletes : List ℕ
  pub inserts : List InsertStopTime

unfoldable pub new_stop_time : ℕ → ℕ → ℤ → Option String → StopTimeUpdate → InsertStopTime
new_stop_time trip_pk stop_pk sequence headsign u = record {
  trip_pk = trip_pk;
  stop_pk = stop_pk;
  arrival = u.arrival;
  departure = u.departure;
  stop_sequence = sequence;
  track = u.nyct_track;
  headsign = headsign;
  past = false;
}

-- The existing stop time with the sequence of the update is deleted, and no longer unmatched.
unfoldable pub match_existing : ℕ → ℤ → Changes → Changes
match_existing stop_pk sequence c = elim (lookup sequence c.unmatched) [
  | none ↦ record c { path_changed = true }
  | some existing ↦ record c {
    deletes = c.deletes ++ existing.pk ∷ [];
    unmatched = delete sequence c.unmatched;
    path_changed = if not (stop_pk == existing.pk) then true else c.path_changed;
  }
]

module _ (trip_pk : ℕ) (stop_id_to_pk : Map String ℕ) (rules : Map ℕ (List HeadsignRule)) where
  -- One update with a stop and a sequence.
  unfoldable pub change_stop : ℕ → ℤ → StopTimeUpdate → Changes → Changes
  unfolding match_existing new_stop_time
  change_stop stop_pk sequence u c =
      let headsign = match_headsign rules stop_pk u.nyct_track in
      let matched = match_existing stop_pk sequence c in
      if u.is_skipped then matched else record matched {
        inserts = matched.inserts ++ new_stop_time trip_pk stop_pk sequence headsign u ∷ [];
      }

  abbrev pub change_known : Option ℕ → Option ℕ → StopTimeUpdate → Changes → Changes
  change_known none sequence u c = c
  change_known (some stop_pk) none u c = c
  change_known (some stop_pk) (some q) u c = change_stop stop_pk (int32_of_uint32 q) u c

  unfoldable pub change_stops : List StopTimeUpdate → Changes → Changes
  unfolding change_stop
  change_stops [] c = c
  change_stops (u ∷ us) c =
      change_stops us (change_known (stop_pk_of stop_id_to_pk u.stop_id) u.stop_sequence u c)

-- The sequence of the first update that has one, and `math.MaxInt32` if none has.
unfoldable pub current_stop_sequence : List StopTimeUpdate → ℤ
current_stop_sequence [] = pos 2_147_483_647
current_stop_sequence (u ∷ us) =
    let rest = current_stop_sequence us in
    elim u.stop_sequence [ none ↦ rest | some q ↦ int32_of_uint32 q ]

-- The last loop: the existing stop times that no update matched, from the current one on.
unfoldable pub delete_unmatched : ℤ → Map ℤ StopTimeRow → Changes → Changes
delete_unmatched current [] c = c
delete_unmatched current ((sequence, row) ∷ rest) c = delete_unmatched current rest (
    if ltb_ℤ sequence current
    then c
    else record c { deletes = c.deletes ++ row.pk ∷ []; path_changed = true })

-- The state in which the loop over the updates starts.
abbrev pub start_changes : List StopTimeRow → StagedUpdates → Changes
start_changes existing t = record {
  unmatched = index_rows [] existing;
  path_changed = false;
  deletes = t.delete_stop_times;
  inserts = t.insert_stop_times;
}

unfoldable pub calculate_stop_time_changes :
    Bool
    → ℕ
    → Map String ℕ
    → Map ℕ (List HeadsignRule)
    → List StopTimeUpdate
    → List StopTimeRow
    → StagedUpdates
    → StagedUpdates × Bool
unfolding change_stops index_rows delete_unmatched
calculate_stop_time_changes reassign trip_pk ids rules updates existing t =
    let us = populate_stop_sequences updates existing ids reassign in
    let c = change_stops trip_pk ids rules us (start_changes existing t) in
    let current = current_stop_sequence us in
    let last = delete_unmatched current c.unmatched c in
    (
      record {
        delete_stop_times = last.deletes;
        insert_stop_times = last.inserts;
        mark_stop_times_past =
            t.mark_stop_times_past
            ++ record { trip_pk = trip_pk; current_stop_sequence = current } ∷ [];
      },
      last.path_changed,
    )
