-- ===== src/Realtime/Sequences.antt =====
-- `populateStopSequences`: a stop sequence for each stop of a trip.
pub mod Increasing
use Prim.Native.String.{String}
use transiter.Base.{
  Bool, List, Option, [], false, if◌then◌else◌, nat_keys, none, not, some, string_keys, ℕ, ◌&&◌,
  ◌∷◌,
}
use transiter.Base.Int.{int_keys, ltb_ℤ, negsuc, pos, suc_ℤ, uint32_of_int64, ℤ}
use transiter.Base.Maps.{Map, insert, lookup}
use transiter.Graph.Types.{edge_keys}
use transiter.Realtime.Types.{StopTimeRow, StopTimeUpdate, stop_pk_of}

-- The first loop: the sequences of the existing stop times, none if a stop occurs twice.
unfoldable pub current_sequences : Map ℕ ℤ → List StopTimeRow → Map ℕ ℤ
current_sequences m [] = m
current_sequences m (row ∷ rows) =
    let rest = current_sequences (insert row.stop_pk row.stop_sequence m) rows in
    elim (lookup row.stop_pk m) [ none ↦ rest | some _ ↦ [] ]

-- Whether the sequence in the feed is used: `useFeedStopSequences && stopTime.StopSequence != nil
-- && lastSequence < int64(*stopTime.StopSequence)`.
abbrev pub uses_feed : Bool → ℤ → Option ℕ → Bool
uses_feed use_feed last none = false
uses_feed use_feed last (some q) = use_feed && ltb_ℤ last (pos q)

-- The sequence of a stop that does not use the feed's.
abbrev pub next_sequence : ℤ → Option ℤ → ℤ
next_sequence last none = suc_ℤ last
next_sequence last (some current) = if ltb_ℤ last current then current else suc_ℤ last

-- What the second loop does to one update of a stop that the system has.
pub record Assigned : Type 0 where
  pub last : ℤ
  pub stop_sequence : Option ℕ

unfoldable pub assign : Bool → Map ℕ ℤ → ℤ → ℕ → Option ℕ → Assigned
assign use_feed current last stop_pk feed =
    let own = next_sequence last (lookup stop_pk current) in
    if uses_feed use_feed last feed
    then record { last = elim feed [ none ↦ last | some q ↦ pos q ]; stop_sequence = feed }
    else record { last = own; stop_sequence = some (uint32_of_int64 own) }

-- The second loop.
unfoldable pub populate :
    Bool → Map String ℕ → Map ℕ ℤ → ℤ → List StopTimeUpdate → List StopTimeUpdate
unfolding assign
populate use_feed stop_id_to_pk current last [] = []
populate use_feed stop_id_to_pk current last (u ∷ us) = elim (stop_pk_of stop_id_to_pk u.stop_id) [
  | none ↦ u ∷ populate use_feed stop_id_to_pk current last us
  | some stop_pk ↦
      let a = assign use_feed current last stop_pk u.stop_sequence in
      record u { stop_sequence = a.stop_sequence }
      ∷ populate use_feed stop_id_to_pk current a.last us
]

unfoldable pub populate_stop_sequences :
    List StopTimeUpdate → List StopTimeRow → Map String ℕ → Bool → List StopTimeUpdate
unfolding current_sequences populate
populate_stop_sequences updates existing stop_id_to_pk reassign_stop_sequences =
    populate (not reassign_stop_sequences) stop_id_to_pk (current_sequences [] existing) (negsuc 0)
      updates
