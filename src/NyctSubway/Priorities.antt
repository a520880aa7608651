-- ===== src/NyctSubway/Priorities.antt =====
-- `ORDER BY priority` of ListStopHeadsignRulesForStops (db/queries/stop_headsign_queries.sql) on
-- the rows that Update of internal/update/nyctsubwaycsv/nyctsubwaycsv.go inserts.
use Prim.{tt}
use Prim.Native.String.{String}
use mathlib.Core.Path.{subst}
use transiter.Base.{
  Bool-cases, List, Option, Option-cases, [], ap, arith, contains, false, if◌then◌else◌, inl, inr,
  length, map, nat_keys, nat_same_iff, none, refl, some, string_keys, suc, true, ℕ, ◌++◌, ◌+◌, ◌<◌,
  ◌==◌, ◌∙◌, ◌∷◌, ◌≡◌, ◌≤◌,
}
use transiter.Base.Int.{int32_of_uint32, int_keys, pos, ℤ, ◌<ℤ◌}
use transiter.Base.Maps.{Map, lookup}
use transiter.NyctSubway.{StopHeadsignRule}
use transiter.NyctSubway.Headsigns.{rows_of_rules}
use transiter.Realtime.Headsigns.{first_fit}
use transiter.Realtime.Types.{HeadsignRule}

-- A row with its priority.
abbrev pub RuleRow : Type 0
RuleRow = ℤ × HeadsignRule

abbrev pub rules_of : List RuleRow → List HeadsignRule
rules_of rows = map (λ (r : RuleRow). r.1) rows

abbrev pub rows_of_stops : List ℕ → List RuleRow → List RuleRow
rows_of_stops stop_pks [] = []
rows_of_stops stop_pks ((p, r) ∷ rows) =
    if contains stop_pks r.stop_pk
    then (p, r) ∷ rows_of_stops stop_pks rows
    else rows_of_stops stop_pks rows

abbrev pub NoneBelow : ℤ → List RuleRow → Type 0
NoneBelow p [] = Unit
NoneBelow p ((k, r) ∷ rows) = (¬ (k <ℤ p)) × NoneBelow p rows

-- The rules of the rows in the order of their priorities; rows with the same priority stand in any
-- order.
abbrev pub IsOrdered : List RuleRow → List HeadsignRule → Type 0
IsOrdered rows [] = rows ≡ []
IsOrdered rows (r ∷ listed) =
    (before : List RuleRow) × (p : ℤ) × (after : List RuleRow) × (rows ≡ before ++ (p, r) ∷ after)
    × NoneBelow p (before ++ after)
    × IsOrdered (before ++ after) listed

-- The priorities are numbers from a bound on, and each is greater than the one before.
abbrev pub Increasing : ℕ → List RuleRow → Type 0
Increasing lo [] = Unit
Increasing lo ((p, r) ∷ rows) = (n : ℕ) × (p ≡ pos n) × (lo ≤ n) × Increasing (suc n) rows

pub Increasing-weaken :
    (lo low : ℕ) (rows : List RuleRow) → low ≤ lo → Increasing lo rows → Increasing low rows
Increasing-weaken lo low [] h i = i
Increasing-weaken lo low ((p, r) ∷ rows) h (n, e, above, i) = (n, e, omega (arith, h, above), i)

Increasing-rows_of_stops :
    (stop_pks : List ℕ) (lo : ℕ) (rows : List RuleRow)
    → Increasing lo rows
    → Increasing lo (rows_of_stops stop_pks rows)
Increasing-rows_of_stops stop_pks lo [] i = i
Increasing-rows_of_stops stop_pks lo ((p, r) ∷ rows) (n, e, above, i) =
    let rest = Increasing-rows_of_stops stop_pks (suc n) rows i in
    elim (Bool-cases (contains stop_pks r.stop_pk)) [
      | inl asked ↦ rw asked (n, e, above, rest)
      | inr other ↦
          rw other
            (Increasing-weaken (suc n) lo (rows_of_stops stop_pks rows) (omega (arith, above)) rest)
    ]

later_priority :
    (lo : ℕ) (before : List RuleRow) (p : ℤ) (r : HeadsignRule) (after : List RuleRow)
    → Increasing lo (before ++ (p, r) ∷ after)
    → (n : ℕ) × (p ≡ pos n) × (lo ≤ n)
later_priority lo [] p r after (n, e, above, i) = (n, e, above)
later_priority lo ((k, s) ∷ before) p r after (n, e, above, i) =
    let (m, same, later) = later_priority (suc n) before p r after i in
    (m, same, omega (arith, above, later))

-- Rows with increasing priorities have one order only.
IsOrdered-Increasing :
    (lo : ℕ) (rows : List RuleRow) (listed : List HeadsignRule)
    → Increasing lo rows
    → IsOrdered rows listed
    → listed ≡ rules_of rows
IsOrdered-Increasing lo rows [] i o = rw o refl
IsOrdered-Increasing lo rows (r ∷ listed) i ([], p, after, e, low, o) =
    let (n, same, above, later) = subst (Increasing lo) e i in
    rw e (ap (λ rs. r ∷ rs) (IsOrdered-Increasing (suc n) after listed later o))
IsOrdered-Increasing lo rows (r ∷ listed) i ((k, s) ∷ before, p, after, e, low, o) =
    let (n, first, above, rest) = subst (Increasing lo) e i in
    let (m, last, later) = later_priority (suc n) before p r after rest in
    absurd (low.0 (rw (first, last) (omega (arith, later))))

NoneBelow-Increasing :
    (n lo : ℕ) (rows : List RuleRow) → n < lo → Increasing lo rows → NoneBelow (pos n) rows
NoneBelow-Increasing n lo [] h i = tt
NoneBelow-Increasing n lo ((k, r) ∷ rows) h (m, e, above, i) = (
  λ less. absurd (omega (arith, rw e at less, h, above)),
  NoneBelow-Increasing n (suc m) rows (omega (arith, h, above)) i,
)

-- And they are in that order as they stand.
pub IsOrdered-rules_of :
    (lo : ℕ) (rows : List RuleRow) → Increasing lo rows → IsOrdered rows (rules_of rows)
IsOrdered-rules_of lo [] i = refl
IsOrdered-rules_of lo ((p, r) ∷ rows) (n, e, above, i) = (
  [],
  p,
  rows,
  refl,
  rw e (NoneBelow-Increasing n (suc n) rows (omega arith) i),
  IsOrdered-rules_of (suc n) rows i,
)

first_fit-rows_of_stops :
    (stop_pks : List ℕ) (pk : ℕ) (track : Option String) (rows : List RuleRow)
    → contains stop_pks pk ≡ true
    → first_fit pk track (rules_of (rows_of_stops stop_pks rows))
      ≡ first_fit pk track (rules_of rows)
first_fit-rows_of_stops stop_pks pk track [] asked = refl
first_fit-rows_of_stops stop_pks pk track ((p, r) ∷ rows) asked =
    let rest = first_fit-rows_of_stops stop_pks pk track rows asked in
    elim (Bool-cases (contains stop_pks r.stop_pk)) [
      | inl mine ↦ rw mine (ground (arith, rest))
      | inr other ↦
          let apart : (r.stop_pk == pk) ≡ false =
            ground (arith, other, asked, nat_same_iff r.stop_pk pk) in
          rw (other, apart) rest
    ]

-- The rules of a stop that a list has first are those that the rows have first.
pub first_fit-ordered :
    (stop_pks : List ℕ) (pk : ℕ) (track : Option String) (lo : ℕ) (rows : List RuleRow)
    (listed : List HeadsignRule)
    → Increasing lo rows
    → IsOrdered (rows_of_stops stop_pks rows) listed
    → contains stop_pks pk ≡ true
    → first_fit pk track listed ≡ first_fit pk track (rules_of rows)
first_fit-ordered stop_pks pk track lo rows listed i o asked =
    ap (first_fit pk track) (
      IsOrdered-Increasing lo (rows_of_stops stop_pks rows) listed
        (Increasing-rows_of_stops stop_pks lo rows i) o)
    ∙ first_fit-rows_of_stops stop_pks pk track rows asked

-- The rows that are inserted for rules from a position on.
abbrev pub rows_from : Map String ℕ → ℕ → List StopHeadsignRule → List RuleRow
rows_from pks i [] = []
rows_from pks i (r ∷ rules) = elim (lookup r.stop_id pks) [
  | none ↦ rows_from pks (suc i) rules
  | some pk ↦
      (int32_of_uint32 i, record { stop_pk = pk; track = r.track; headsign = r.headsign })
      ∷ rows_from pks (suc i) rules
]

pub rules_of-rows_from :
    (pks : Map String ℕ) (i : ℕ) (rules : List StopHeadsignRule)
    → rules_of (rows_from pks i rules) ≡ rows_of_rules pks rules
rules_of-rows_from pks i [] = refl
rules_of-rows_from pks i (r ∷ rules) = elim (Option-cases (lookup r.stop_id pks)) [
  | inl absent ↦ rw (absent, rows_from, rows_of_rules) (rules_of-rows_from pks (suc i) rules)
  | inr (pk, has) ↦
      rw (has, rows_from, rows_of_rules)
        (ap (λ rs. record { stop_pk = pk; track = r.track; headsign = r.headsign } ∷ rs)
          (rules_of-rows_from pks (suc i) rules))
]

int32-small : (i : ℕ) → i < 2_147_483_648 → int32_of_uint32 i ≡ pos i
int32-small i h = ground (arith, h)

-- Up to 2^31 rules, the position of a rule does not wrap, and its row comes after those before it.
pub Increasing-rows_from :
    (pks : Map String ℕ) (i : ℕ) (rules : List StopHeadsignRule)
    → i + length rules ≤ 2_147_483_648
    → Increasing i (rows_from pks i rules)
Increasing-rows_from pks i [] h = tt
Increasing-rows_from pks i (r ∷ rules) h =
    let rest = Increasing-rows_from pks (suc i) rules (omega (arith, h)) in
    elim (Option-cases (lookup r.stop_id pks)) [
      | inl absent ↦
          rw (absent, rows_from)
            (Increasing-weaken (suc i) i (rows_from pks (suc i) rules) (omega arith) rest)
      | inr (pk, has) ↦ rw (has, rows_from) (i, int32-small i (omega (arith, h)), omega arith, rest)
    ]
