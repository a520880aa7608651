-- ===== src/ServiceMaps/Configs.antt =====
-- `UpdateConfig`: the rows of the configurations of service maps, from the one of the system's file.
use Prim.Native.String.{String}
use transiter.Base.{
  List, Option, Option-cases, [], arith, contains, if◌then◌else◌, inl, inr, map, nat_keys, none,
  refl, some, string_keys, ℕ, ◌==◌, ◌∷◌, ◌≡◌,
}
use transiter.Base.Int.{int_keys}
use transiter.Base.Maps.{Map, delete, lookup, lookup-delete}

-- A new configuration, with the bytes that protojson writes for it, none if it fails.
pub record NewConfig : Type 0 where
  pub id : String
  pub marshalled : Option String

-- The queries, none where one fails.
pub record ConfigQueries (Database : Type 0) : Type 0 where
  pub list_configs : ℕ → Database → Option (Map String ℕ)
  pub update_config_row : ℕ → String → Database → Option Database
  pub insert_config_row : String → ℕ → String → Database → Option Database
  pub delete_config_row : ℕ → Database → Option Database

module _ {Database : Type 0} (q : ConfigQueries Database) (system_pk : ℕ) where
  abbrev pub written :
      String → Option ℕ → Map String ℕ → Option Database → Option (Map String ℕ × Database)
  written id known pks none = none
  written id none pks (some d) = some (pks, d)
  written id (some pk) pks (some d) = some (delete id pks, d)

  abbrev pub write_row_of : String → Option ℕ → String → Database → Option Database
  write_row_of id none bytes d = q.insert_config_row id system_pk bytes d
  write_row_of id (some pk) bytes d = q.update_config_row pk bytes d

  -- One pass of the loop over the new configurations.
  unfoldable pub write_config :
      Map String ℕ → NewConfig → Database → Option (Map String ℕ × Database)
  write_config pks config d = elim config.marshalled [
    | none ↦ none
    | some bytes ↦
        written config.id (lookup config.id pks) pks
          (write_row_of config.id (lookup config.id pks) bytes d)
  ]

  unfoldable pub write_configs :
      Map String ℕ → List NewConfig → Database → Option (Map String ℕ × Database)
  unfolding write_config
  write_configs pks [] d = some (pks, d)
  write_configs pks (config ∷ configs) d = elim (write_config pks config d) [
    | none ↦ none
    | some (left, d') ↦ write_configs left configs d'
  ]

  -- The last loop.
  unfoldable pub delete_configs : Map String ℕ → Database → Option Database
  delete_configs [] d = some d
  delete_configs ((id, pk) ∷ pks) d = elim (q.delete_config_row pk d) [
    | none ↦ none
    | some d' ↦ delete_configs pks d'
  ]

  abbrev pub delete_left : Option (Map String ℕ × Database) → Option Database
  delete_left none = none
  delete_left (some (left, d)) = delete_configs left d

  -- A failure of the first query is no error: `return nil`.
  abbrev pub update_listed_configs :
      Option (Map String ℕ) → List NewConfig → Database → Option Database
  update_listed_configs none configs d = some d
  update_listed_configs (some pks) configs d = delete_left (write_configs pks configs d)

  unfoldable pub update_config : List NewConfig → Database → Option Database
  unfolding write_configs delete_configs
  update_config configs d = update_listed_configs (q.list_configs system_pk d) configs d

  written-lookup :
      (id k : String) (known : Option ℕ) (pks left : Map String ℕ) (o : Option Database)
      (d' : Database)
      → lookup id pks ≡ known
      → written id known pks o ≡ some (left, d')
      → lookup k left ≡ (if id == k then none else lookup k pks)
  written-lookup id k known pks left none d' h e = absurd (cc e)
  written-lookup id k none pks left (some d) d' h e =
      let same : pks ≡ left = cc e in rw (← same) (ground (arith, string_keys.same_iff id k))
  written-lookup id k (some pk) pks left (some d) d' h e =
      let same : delete id pks ≡ left = cc e in rw (← same) (lookup-delete id k pks)

  write_config-lookup :
      (config : NewConfig) (pks left : Map String ℕ) (d d' : Database) (k : String)
      → write_config pks config d ≡ some (left, d')
      → lookup k left ≡ (if config.id == k then none else lookup k pks)
  unfolding write_config
  write_config-lookup config pks left d d' k e = elim (Option-cases config.marshalled) [
    | inl fails ↦ absurd (cc (rw (fails, write_config) at e))
    | inr (bytes, works) ↦
        written-lookup config.id k (lookup config.id pks) pks left
          (write_row_of config.id (lookup config.id pks) bytes d) d' refl
          (rw (works, write_config) at e)
  ]

  -- After the new configurations are written, the rows that are left to be deleted are exactly those
  -- of the configurations that the system had and that are not among the new ones.
  pub write_configs-lookup :
      (pks left : Map String ℕ) (configs : List NewConfig) (d d' : Database) (k : String)
      → write_configs pks configs d ≡ some (left, d')
      → lookup k left
        ≡ (if contains (map (λ (c : NewConfig). c.id) configs) k then none else lookup k pks)
  unfolding write_configs
  write_configs-lookup pks left [] d d' k e = let same : pks ≡ left = cc e in rw same refl
  write_configs-lookup pks left (config ∷ configs) d d' k e =
      elim (Option-cases (write_config pks config d)) [
        | inl fails ↦ absurd (cc (rw (fails, write_configs) at e))
        | inr ((next, after), works) ↦ ground (
          arith,
          write_configs-lookup next left configs after d' k (rw (works, write_configs) at e),
          write_config-lookup config pks next d after k works,
        )
      ]
