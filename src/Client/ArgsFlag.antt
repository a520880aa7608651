-- ===== src/Client/ArgsFlag.antt =====
-- The flag that collects arguments key=value: internal/argsflag/argsflag.go.
use Prim.Native.Char.{Char, code}
use Prim.Native.String.{String, ◌++◌ as str_append}
use text.Mathlib.TextLemmas.{cons-append, nil-append}
use transiter.Base.{
  Bool, Bool-cases, Option, arith, if◌then◌else◌, inl, inr, nat_keys, none, not, refl, some,
  string_keys, true, ◌&&◌, ◌==◌, ◌≡◌,
}
use transiter.Base.Int.{int_keys}
use transiter.Base.Maps.{Map, insert, lookup, lookup-insert}

-- Flag
pub record Flag : Type 0 where
  pub values : Map String String
  pub has_been_set : Bool

pub data SetResult : Type 0 where
  set_to : Flag → SetResult
  not_key_value : String → SetResult
  -- The key, and the value that the error shows.
  already_set : String → String → SetResult

-- strings.SplitN(rawValue, "=", 2), where it gives two parts: what stands before the first "=" and
-- after it.
unfoldable pub split_once : String → Option (String × String)
split_once String.[] = none
split_once (String.◌∷◌ c s) =
    let later = split_once s in
    if code c == 61
    then some ("", s)
    else elim later [ none ↦ none | some (key, value) ↦ some (String.◌∷◌ c key, value) ]

-- Set
unfoldable pub set_flag : String → Flag → SetResult
unfolding split_once
set_flag raw_value f = elim (split_once raw_value) [
  | none ↦ not_key_value raw_value
  | some (key, value) ↦ elim (lookup key f.values) [
    | some old ↦ already_set key value
    | none ↦ set_to (record { values = insert key value f.values; has_been_set = true })
  ]
]

-- A key that the flag can have: no "=" in it.
abbrev pub no_equals : String → Bool
no_equals String.[] = true
no_equals (String.◌∷◌ c s) = not (code c == 61) && no_equals s

abbrev equals : Char
equals = "="

split_once-append :
    (key value : String)
    → no_equals key ≡ true
    → split_once (str_append key (String.◌∷◌ equals value)) ≡ some (key, value)
unfolding split_once
split_once-append String.[] value h = rw (nil-append (String.◌∷◌ equals value)) refl
split_once-append (String.◌∷◌ c key) value h = elim (Bool-cases (code c == 61)) [
  | inl stops ↦ absurd (ground (arith, h, stops))
  | inr goes_on ↦
      rw (cons-append c key (String.◌∷◌ equals value))
        (rw (goes_on, split_once) (rw (split_once-append key value (ground (arith, h))) refl))
]

-- An argument key=value with a new key and no "=" in the key is collected: the flag then has the
-- value at the key, whatever characters the value has, and what it had at the other keys.
pub lookup-set_flag :
    (key value : String) (f : Flag) (plain : no_equals key ≡ true)
    (new : lookup key f.values ≡ none)
    → (after : Flag) × (set_flag (str_append key (String.◌∷◌ equals value)) f ≡ set_to after)
      × (after.has_been_set ≡ true)
      × ((other : String)
          → lookup other after.values
            ≡ (if key == other then some value else lookup other f.values))
unfolding set_flag
lookup-set_flag key value f plain new = (
  record { values = insert key value f.values; has_been_set = true },
  rw (split_once-append key value plain, set_flag) (rw new refl),
  refl,
  λ other. lookup-insert key other value f.values,
)
