-- ===== src/Static/TransferId.antt =====
-- The IDs that `updateTransfers` of internal/update/static/static.go makes for transfers.
use Prim.Native.Char.{Char, code}
use Prim.Native.String.{String, ◌++◌ as str_append}
use text.Mathlib.TextEquality.{Char-path}
use text.Mathlib.TextLemmas.{cons-append, head-eq_of_cons-eq, nil-append, tail-eq_of_cons-eq}
use transiter.Base.{
  Bool-cases, ap, arith, if◌then◌else◌, inl, inr, nat_keys, nat_same_iff, refl, string_keys, sym,
  ◌==◌, ◌∙◌, ◌≡◌, ◌≢◌,
}
use transiter.Base.Int.{int_keys}

abbrev underscore : Char
underscore = "_"

-- `strings.ReplaceAll(id, "_", "__")`
unfoldable pub double_underscores : String → String
double_underscores String.[] = ""
double_underscores (String.◌∷◌ c s) =
    let rest = double_underscores s in
    if code c == 95 then String.◌∷◌ underscore (String.◌∷◌ underscore rest) else String.◌∷◌ c rest

-- `fmt.Sprintf("%s_to_%s", ...)`
unfoldable pub transfer_id : String → String → String
transfer_id from_id to_id =
    str_append (double_underscores from_id) (str_append "_to_" (double_underscores to_id))

-- "_to_" and a string.
abbrev to_tag : String → String
to_tag s = String.◌∷◌ underscore (String.◌∷◌ "t" (String.◌∷◌ "o" (String.◌∷◌ underscore s)))

-- The first stop of an ID, and what follows the tag.
abbrev pub tagged : String → String → String
tagged String.[] rest = to_tag rest
tagged (String.◌∷◌ c s) rest =
    let later = tagged s rest in
    if code c == 95 then String.◌∷◌ underscore (String.◌∷◌ underscore later) else String.◌∷◌ c later

append-tagged :
    (s rest : String) → str_append (double_underscores s) (str_append "_to_" rest) ≡ tagged s rest
unfolding double_underscores
append-tagged String.[] rest = cc (
  nil-append (str_append "_to_" rest),
  cons-append underscore "to_" rest,
  cons-append "t" "o_" rest,
  cons-append "o" "_" rest,
  cons-append underscore "" rest,
  nil-append rest,
)
append-tagged (String.◌∷◌ c s) rest = elim (Bool-cases (code c == 95)) [
  | inl x ↦ rw x (
      cc (
        append-tagged s rest,
        cons-append underscore (String.◌∷◌ underscore (double_underscores s))
            (str_append "_to_" rest),
        cons-append underscore (double_underscores s) (str_append "_to_" rest),
      ))
  | inr x ↦
      rw x
        (cc (append-tagged s rest, cons-append c (double_underscores s) (str_append "_to_" rest)))
]

-- Two characters are different when their codes are.
head-differs :
    {c d : Char} {s t : String}
    → (code c ≢ code d)
    → ◌≡◌ {A = String} (String.◌∷◌ c s) (String.◌∷◌ d t)
    → ⊥
head-differs ne e = ne (ap code (head-eq_of_cons-eq e))

empty-tagged : (c : Char) (t rest rest' : String) → to_tag rest ≡ tagged (String.◌∷◌ c t) rest' → ⊥
empty-tagged c t rest rest' e = elim (Bool-cases (code c == 95)) [
  | inl x ↦
      head-differs {c = "t"} {d = underscore} (λ h. absurd (omega (arith, h)))
        (tail-eq_of_cons-eq (rw x at e))
  | inr x ↦ head-differs {c = underscore} {d = c} (λ h. ground arith) (rw x at e)
]

tagged-injective :
    (s t rest rest' : String) → tagged s rest ≡ tagged t rest' → (s ≡ t) × (rest ≡ rest')
tagged-injective String.[] String.[] rest rest' e =
    (refl, tail-eq_of_cons-eq (tail-eq_of_cons-eq (tail-eq_of_cons-eq (tail-eq_of_cons-eq e))))
tagged-injective String.[] (String.◌∷◌ c t) rest rest' e = absurd (empty-tagged c t rest rest' e)
tagged-injective (String.◌∷◌ c s) String.[] rest rest' e =
    absurd (empty-tagged c s rest' rest (sym e))
tagged-injective (String.◌∷◌ c s) (String.◌∷◌ d t) rest rest' e = elim (Bool-cases (code c == 95)) [
  | inl x ↦ elim (Bool-cases (code d == 95)) [
    | inl y ↦
        let (same, left) =
          tagged-injective s t rest rest'
            (tail-eq_of_cons-eq (tail-eq_of_cons-eq (rw (x, y) at e))) in
        let first : c ≡ d =
          Char-path c d (ground (arith, nat_same_iff (code c) 95, nat_same_iff (code d) 95)) in
        (cc (same, first), left)
    | inr y ↦ absurd (head-differs {c = underscore} {d = d} (λ h. ground arith) (rw (x, y) at e))
  ]
  | inr x ↦ elim (Bool-cases (code d == 95)) [
    | inl y ↦ absurd (head-differs {c = c} {d = underscore} (λ h. ground arith) (rw (x, y) at e))
    | inr y ↦
        let both : ◌≡◌ {A = String} (String.◌∷◌ c (tagged s rest)) (String.◌∷◌ d (tagged t rest')) =
          rw (x, y) at e in
        let (same, left) = tagged-injective s t rest rest' (tail-eq_of_cons-eq both) in
        (cc (same, head-eq_of_cons-eq both), left)
  ]
]

-- Transfers with the same ID are between the same two stops.
pub transfer_id-injective :
    (from_id to_id from_id' to_id' : String)
    → transfer_id from_id to_id ≡ transfer_id from_id' to_id'
    → (from_id ≡ from_id') × (to_id ≡ to_id')
unfolding transfer_id
transfer_id-injective from_id to_id from_id' to_id' e =
    let (same, doubled) =
      tagged-injective from_id from_id' (double_underscores to_id) (double_underscores to_id') (
        sym (append-tagged from_id (double_underscores to_id))
        ∙ e
        ∙ append-tagged from_id' (double_underscores to_id')) in
    let again = tagged-injective to_id to_id' "" "" (
      sym (append-tagged to_id "")
      ∙ ap (λ s. str_append s (str_append "_to_" "")) doubled
      ∙ append-tagged to_id' "") in
    (same, again.0)
