-- ===== src/Client/Tests.antt =====
-- An argument whose value has an "=".
use Prim.Native.String.{String}
use transiter.Base.{
  [], false, if◌then◌else◌, nat_keys, refl, some, string_keys, true, ◌==◌, ◌∷◌, ◌≡◌,
}
use transiter.Base.Int.{int_keys}
use transiter.Base.Maps.{lookup}
use transiter.Client.ArgsFlag.{Flag, already_set, lookup-set_flag, set_flag, set_to, split_once}

abbrev no_args : Flag
no_args = record { values = []; has_been_set = false }

lookup-set_flag_example :
    (after : Flag) × (set_flag "api_key=a=b" no_args ≡ set_to after)
    × (after.has_been_set ≡ true)
    × ((other : String)
        → lookup other after.values
          ≡ (if "api_key" == other then some "a=b" else lookup other no_args.values))
unfolding lookup
lookup-set_flag_example = lookup-set_flag "api_key" "a=b" no_args refl refl

-- The error shows the value that is refused, not the one that is set.
set_twice :
    set_flag "key=new" (record { values = ("key", "old") ∷ []; has_been_set = true })
    ≡ already_set "key" "new"
unfolding set_flag split_once lookup
set_twice = refl
