-- ===== src/NyctSubway/Headsigns.antt =====
-- The headsigns that the matcher of internal/update/realtime/realtime.go gives after an update of
-- internal/update/nyctsubwaycsv/nyctsubwaycsv.go.
use mathlib.Core.List.Memᴰ
use Prim.Native.String.{String}
use transiter.Base.{
  Bool-cases, List, Memᴰ, Option, Option-cases, [], arith, contains, contains-append, false,
  if◌then◌else◌, inl, inr, map, nat_keys, nodup, none, refl, some, string_keys, true, ℕ, ◌&&◌, ◌++◌,
  ◌==◌, ◌||◌, ◌↔◌, ◌∷◌, ◌≡◌,
}
use transiter.Base.Int.{int_keys}
use transiter.Base.Maps.{Map, lookup}
use transiter.NyctSubway.{StopHeadsignRule}
use transiter.NyctSubway.CustomRules.{CustomRule, expand_rules}
use transiter.NyctSubway.Update.{rule_stop_ids}
use transiter.Public.Results.{found}
use transiter.Realtime.Alerts.Partition.{ids}
use transiter.Realtime.Headsigns.{first_fit, fits}
use transiter.Realtime.Types.{HeadsignRule}

-- The first rule for a stop that fits a track.
abbrev pub first_rule : String → Option String → List StopHeadsignRule → Option String
first_rule id track [] = none
first_rule id track (r ∷ rules) =
    let later = first_rule id track rules in
    if r.stop_id == id && fits track r.track then some r.headsign else later

abbrev pub custom_headsign : CustomRule → Option String → String
custom_headsign g track = if fits track (some g.track) then g.track_headsign else g.default_headsign

other_stop :
    (groups : List CustomRule) (g : CustomRule) (id : String)
    → Memᴰ g groups
    → contains (map (λ g. g.stop_id) groups) id ≡ false
    → (id == g.stop_id) ≡ false
other_stop [] g id m missing = absurd (Memᴰ.not-nil m)
other_stop (h ∷ groups) g id m missing = elim (Memᴰ.cases_cons m) [
  | inl e ↦ rw e (
      ground (arith, missing, string_keys.same_iff id h.stop_id, string_keys.same_iff h.stop_id id))
  | inr later ↦ other_stop groups g id later (ground (arith, missing))
]

pub first_rule-expand_rules :
    (groups : List CustomRule) (g : CustomRule) (track : Option String)
    (rest : List StopHeadsignRule)
    → nodup (map (λ g. g.stop_id) groups) ≡ true
    → Memᴰ g groups
    → first_rule g.stop_id track (expand_rules groups ++ rest) ≡ some (custom_headsign g track)
unfolding expand_rules
first_rule-expand_rules [] g track rest d m = absurd (Memᴰ.not-nil m)
first_rule-expand_rules (h ∷ groups) g track rest d m = elim (Memᴰ.cases_cons m) [
  | inl e ↦ rw e (ground (arith, string_keys.same_iff h.stop_id h.stop_id))
  | inr later ↦
      let apart : (h.stop_id == g.stop_id) ≡ false =
        other_stop groups g h.stop_id later (ground (arith, d)) in
      rw apart (first_rule-expand_rules groups g track rest (ground (arith, d)) later)
]

-- The rows of the rules whose stop has a primary key.
abbrev pub rows_of_rules : Map String ℕ → List StopHeadsignRule → List HeadsignRule
rows_of_rules pks [] = []
rows_of_rules pks (r ∷ rules) = elim (lookup r.stop_id pks) [
  | none ↦ rows_of_rules pks rules
  | some pk ↦
      record { stop_pk = pk; track = r.track; headsign = r.headsign } ∷ rows_of_rules pks rules
]

pub first_fit-rows_of_rules :
    (pks : Map String ℕ) (id : String) (pk : ℕ) (track : Option String)
    (rules : List StopHeadsignRule)
    → ((r : StopHeadsignRule) → Memᴰ r rules → (lookup r.stop_id pks ≡ some pk) ↔ (r.stop_id ≡ id))
    → first_fit pk track (rows_of_rules pks rules) ≡ first_rule id track rules
first_fit-rows_of_rules pks id pk track [] same = refl
first_fit-rows_of_rules pks id pk track (r ∷ rules) same =
    let rec = first_fit-rows_of_rules pks id pk track rules (λ s m. same s (Memᴰ.tail m)) in
    let same_stop = same r (Memᴰ.head refl) in
    elim (Option-cases (lookup r.stop_id pks)) [
      | inl absent ↦
          rw (absent, rows_of_rules, first_fit)
            (ground (arith, rec, same_stop, absent, string_keys.same_iff r.stop_id id))
      | inr (known, found) ↦
          rw (found, rows_of_rules, first_fit)
            (ground (
              arith,
              rec,
              same_stop,
              found,
              string_keys.same_iff r.stop_id id,
              nat_keys.same_iff known pk,
            ))
    ]

pub contains-rule_stop_ids :
    (rules : List StopHeadsignRule) (ids : List String) (id : String)
    → contains (rule_stop_ids rules ids) id
      ≡ (contains (map (λ r. r.stop_id) rules) id || contains ids id)
unfolding rule_stop_ids
contains-rule_stop_ids [] ids id = refl
contains-rule_stop_ids (r ∷ rules) ids id = elim (Bool-cases (contains ids r.stop_id)) [
  | inl seen ↦
      rw seen (
        ground
          (arith, contains-rule_stop_ids rules ids id, seen, string_keys.same_iff r.stop_id id))
  | inr missing ↦ rw missing (
      ground (
        arith,
        contains-rule_stop_ids rules (ids ++ r.stop_id ∷ []) id,
        contains-append ids (r.stop_id ∷ []) id,
      ))
]

pub contains-stop_ids :
    (rules : List StopHeadsignRule) (r : StopHeadsignRule)
    → Memᴰ r rules
    → contains (map (λ r. r.stop_id) rules) r.stop_id ≡ true
contains-stop_ids [] r m = absurd (Memᴰ.not-nil m)
contains-stop_ids (s ∷ rules) r m = elim (Memᴰ.cases_cons m) [
  | inl e ↦ rw e (ground (arith, string_keys.same_iff s.stop_id s.stop_id))
  | inr later ↦ ground (arith, contains-stop_ids rules r later)
]
