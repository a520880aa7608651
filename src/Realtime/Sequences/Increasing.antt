-- ===== src/Realtime/Sequences/Increasing.antt =====
-- The stop sequences after `populateStopSequences` grow along the trip.
use Prim.Native.String.{String}
use transiter.Base.{
  Bool, Bool-cases, List, Option, Option-cases, [], arith, inl, inr, length, nat_keys, none, not,
  refl, some, string_keys, suc, zero, ℕ, ◌%◌, ◌&&◌, ◌+◌, ◌<◌, ◌∷◌, ◌≡◌, ◌≤◌,
}
use transiter.Base.Int.{int_keys, ltb_ℤ, neg_part, negsuc, pos, suc_ℤ, ℤ, ◌<ℤ◌}
use transiter.Base.Maps.{Map, insert, lookup, lookup-insert}
use transiter.Graph.Types.{edge_keys}
use transiter.Realtime.Sequences.{
  Assigned, assign, current_sequences, next_sequence, populate, populate_stop_sequences,
}
use transiter.Realtime.Types.{StopTimeRow, StopTimeUpdate, stop_pk_of}

abbrev pub Next : Option ℕ → Option ℕ → ℤ → (ℤ → Type 0) → Type 0
Next none sequence last Rest = Rest last
Next (some stop_pk) none last Rest = ⊥
Next (some stop_pk) (some q) last Rest = (last <ℤ pos q) × Rest (pos q)

-- Each stop that the system has, has a stop sequence, which is greater than the one before.
abbrev pub IsIncreasing : Map String ℕ → List StopTimeUpdate → ℤ → Type 0
IsIncreasing stop_id_to_pk [] last = Unit
IsIncreasing stop_id_to_pk (u ∷ us) last =
    Next (stop_pk_of stop_id_to_pk u.stop_id) u.stop_sequence last (IsIncreasing stop_id_to_pk us)

abbrev pub FeedFits : ℕ → Option ℕ → Type 0
FeedFits bound none = Unit
FeedFits bound (some q) = q < bound

-- The feed's sequences are below a bound.
abbrev pub FeedBelow : ℕ → List StopTimeUpdate → Type 0
FeedBelow bound [] = Unit
FeedBelow bound (u ∷ us) = FeedFits bound u.stop_sequence × FeedBelow bound us

FeedFits-suc : (bound : ℕ) (o : Option ℕ) → FeedFits bound o → FeedFits (suc bound) o
FeedFits-suc bound none h = h
FeedFits-suc bound (some q) h = omega arith

FeedBelow-suc :
    (bound : ℕ) (us : List StopTimeUpdate) → FeedBelow bound us → FeedBelow (suc bound) us
FeedBelow-suc bound [] h = h
FeedBelow-suc bound (u ∷ us) h =
    (FeedFits-suc bound u.stop_sequence h.0, FeedBelow-suc bound us h.1)

-- The sequences of the existing stop times are below a bound.
abbrev pub RowsBelow : ℕ → List StopTimeRow → Type 0
RowsBelow bound [] = Unit
RowsBelow bound (row ∷ rows) = (row.stop_sequence <ℤ pos bound) × RowsBelow bound rows

-- `lastSequence` starts at -1 and never falls below it.
abbrev IsLast : ℤ → Type 0
IsLast last = neg_part last ≤ 1

-- What an assigned sequence is: greater than the last one, and at most the bound.
abbrev Grows : ℤ → ℕ → ℤ → Type 0
Grows last bound next = (q : ℕ) × (next ≡ pos q) × (last <ℤ pos q) × (q < suc bound)

suc_ℤ-Grows :
    (last : ℤ) (bound : ℕ) → IsLast last → last <ℤ pos bound → Grows last bound (suc_ℤ last)
suc_ℤ-Grows (pos n) bound il lt = (suc n, refl, omega arith, omega arith)
suc_ℤ-Grows (negsuc zero) bound il lt = (0, refl, omega arith, omega arith)
suc_ℤ-Grows (negsuc (suc n)) bound il lt = absurd (omega arith)

own-Grows : (last s : ℤ) (bound : ℕ) → IsLast last → last <ℤ s → s <ℤ pos bound → Grows last bound s
own-Grows last (pos n) bound il lt small = (n, refl, lt, omega arith)
own-Grows last (negsuc n) bound il lt small = absurd (omega arith)

next_sequence-Grows :
    (last : ℤ) (bound : ℕ) (o : Option ℤ)
    → IsLast last
    → last <ℤ pos bound
    → ((s : ℤ) → o ≡ some s → s <ℤ pos bound)
    → Grows last bound (next_sequence last o)
next_sequence-Grows last bound none il lt rows = suc_ℤ-Grows last bound il lt
next_sequence-Grows last bound (some s) il lt rows = elim (Bool-cases (ltb_ℤ last s)) [
  | inl later ↦ rw later (own-Grows last s bound il (ground arith) (rows s refl))
  | inr early ↦ rw early (suc_ℤ-Grows last bound il lt)
]

module _ (current : Map ℕ ℤ) (use_feed : Bool) (last : ℤ) (stop_pk bound : ℕ) where
  abbrev assigned : Option ℕ → Assigned
  assigned feed = assign use_feed current last stop_pk feed

  assign-Grows :
      (feed : Option ℕ)
      → IsLast last
      → last <ℤ pos bound
      → bound < 4_294_967_296
      → ((s : ℤ) → lookup stop_pk current ≡ some s → s <ℤ pos bound)
      → FeedFits bound feed
      → (q : ℕ) × (assigned feed ≡ record { last = pos q; stop_sequence = some q })
        × (last <ℤ pos q)
        × (q < suc bound)
  unfolding assign
  assign-Grows none il lt small rows fits =
      let (q, e, up, low) = next_sequence-Grows last bound (lookup stop_pk current) il lt rows in
      let narrow : q % 4_294_967_296 ≡ q = omega arith in (q, rw (e, narrow), up, low)
  assign-Grows (some f) il lt small rows fits = elim (Bool-cases (use_feed && ltb_ℤ last (pos f))) [
    | inl used ↦ (f, rw used, ground arith, omega arith)
    | inr own ↦
        let (q, e, up, low) = next_sequence-Grows last bound (lookup stop_pk current) il lt rows in
        let narrow : q % 4_294_967_296 ≡ q = omega arith in (q, rw own (rw (e, narrow)), up, low)
  ]

populate-IsIncreasing :
    (use_feed : Bool) (stop_id_to_pk : Map String ℕ) (current : Map ℕ ℤ) (last : ℤ)
    (us : List StopTimeUpdate) (bound : ℕ)
    → IsLast last
    → last <ℤ pos bound
    → bound + length us ≤ 4_294_967_296
    → ((k : ℕ) (s : ℤ) → lookup k current ≡ some s → s <ℤ pos bound)
    → FeedBelow bound us
    → IsIncreasing stop_id_to_pk (populate use_feed stop_id_to_pk current last us) last
unfolding populate
populate-IsIncreasing use_feed ids current last [] bound il lt small rows feed = tt
populate-IsIncreasing use_feed ids current last (u ∷ us) bound il lt small rows feed =
    elim (Option-cases (stop_pk_of ids u.stop_id)) [
      | inl unknown ↦
          rw (unknown, populate)
            (rw unknown (
              populate-IsIncreasing use_feed ids current last us bound il lt (omega arith) rows
                feed.1))
      | inr (stop_pk, known) ↦
          let (q, e, up, low) =
            assign-Grows current use_feed last stop_pk bound u.stop_sequence il lt (omega arith)
              (rows stop_pk) feed.0 in
          rw (known, populate)
            (rw (known, e)
              (
                up,
                populate-IsIncreasing use_feed ids current (pos q) us (suc bound) (omega arith)
                    (omega arith) (omega arith) (λ k s r. omega (arith, rows k s r))
                    (FeedBelow-suc bound us feed.1),
              ))
    ]

current_sequences-below :
    (bound : ℕ) (m : Map ℕ ℤ) (rows : List StopTimeRow)
    → ((k : ℕ) (s : ℤ) → lookup k m ≡ some s → s <ℤ pos bound)
    → RowsBelow bound rows
    → (k : ℕ) (s : ℤ) → lookup k (current_sequences m rows) ≡ some s
    → s <ℤ pos bound
unfolding current_sequences
current_sequences-below bound m [] old fits k s found = old k s found
current_sequences-below bound m (row ∷ rows) old fits k s found =
    elim (Option-cases (lookup row.stop_pk m)) [
      | inl new ↦
          current_sequences-below bound (insert row.stop_pk row.stop_sequence m) rows
            (λ j t e.
              ground (arith, lookup-insert row.stop_pk j row.stop_sequence m, old j t, fits.0))
            fits.1 k s (rw (new, current_sequences) at found)
      | inr (t, twice) ↦ absurd (empty k s (rw (twice, current_sequences) at found))
    ]
  where
    empty : (j : ℕ) (t : ℤ) → lookup {V = ℤ} j [] ≡ some t → ⊥
    empty j t e = unfold lookup in cc

-- Where the feed's and the existing sequences are below a bound that leaves room in a `uint32` for
-- one more per stop, every stop of the trip that the system has gets a stop sequence, and these
-- grow strictly along the trip. This holds with and without the sequences of the feed.
pub populate_stop_sequences-IsIncreasing :
    (updates : List StopTimeUpdate) (existing : List StopTimeRow) (stop_id_to_pk : Map String ℕ)
    (reassign : Bool) (bound : ℕ)
    → bound + length updates ≤ 4_294_967_296
    → FeedBelow bound updates
    → RowsBelow bound existing
    → IsIncreasing stop_id_to_pk
        (populate_stop_sequences updates existing stop_id_to_pk reassign)
        (negsuc 0)
unfolding populate_stop_sequences
populate_stop_sequences-IsIncreasing updates existing ids reassign bound small feed rows =
    populate-IsIncreasing (not reassign) ids (current_sequences [] existing) (negsuc 0) updates
      bound (omega arith) (omega arith) small
      (current_sequences-below bound [] existing (λ k s e. absurd (unfold lookup in cc)) rows) feed
