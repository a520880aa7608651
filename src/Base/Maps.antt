-- ===== src/Base/Maps.antt =====
-- Go's maps as association lists: a key stands at most once, and a range over the map goes through
-- the list.
use transiter.Base.Tests.{Comparable, ◌==◌, if◌then◌else◌, Bool-cases, Option-cases}
use mathlib.Core.Logic.{inl, inr}
use transiter.Base.Lists.{contains, nodup}
use mathlib.Core.Path.{◌≡◌, refl, ap, ◌∙◌}
use mathlib.Core.Bool.{true, false, ◌||◌}
use mathlib.Core.Option.{Option, none, some}
use mathlib.Core.List.{List, [], ◌∷◌}
use native.Mathlib.Omega.{arith}

abbrev pub Map {ℓ κ} : Type ℓ → Type κ → Type (ℓ ⊔ κ)
Map K V = List (K × V)

module _ {ℓ κ} {K : Type ℓ} {V : Type κ} ⦃e : Comparable K⦄ where
  unfoldable pub lookup : K → Map K V → Option V
  lookup key [] = none
  lookup key (entry ∷ rest) =
      let later = lookup key rest in if entry.0 == key then some entry.1 else later

  unfoldable pub insert : K → V → Map K V → Map K V
  insert key value [] = (key, value) ∷ []
  insert key value (entry ∷ rest) =
      let later = insert key value rest in
      if entry.0 == key then (key, value) ∷ rest else entry ∷ later

  unfoldable pub delete : K → Map K V → Map K V
  delete k [] = []
  delete k ((j, w) ∷ m) = if j == k then delete k m else (j, w) ∷ delete k m

  abbrev pub keys : Map K V → List K
  keys [] = []
  keys ((k, v) ∷ m) = k ∷ keys m

  pub lookup-insert :
      (key other : K) (value : V) (m : Map K V)
      → lookup other (insert key value m) ≡ (if key == other then some value else lookup other m)
  unfolding lookup insert
  lookup-insert key other value [] = refl
  lookup-insert key other value (entry ∷ rest) = ground (
    arith,
    lookup-insert key other value rest,
    e.same_iff entry.0 other,
    e.same_iff entry.0 key,
    e.same_iff key other,
  )

  pub lookup-delete :
      (k j : K) (m : Map K V) → lookup j (delete k m) ≡ (if k == j then none else lookup j m)
  unfolding lookup delete
  lookup-delete k j [] = ground arith
  lookup-delete k j ((i, w) ∷ m) =
      ground (arith, e.same_iff k j, e.same_iff i k, e.same_iff i j, lookup-delete k j m)

  pub contains-keys-insert :
      (k j : K) (v : V) (m : Map K V)
      → contains (keys (insert k v m)) j ≡ (k == j || contains (keys m) j)
  unfolding insert
  contains-keys-insert k j v [] = refl
  contains-keys-insert k j v ((i, w) ∷ m) =
      ground (arith, e.same_iff k j, e.same_iff i k, e.same_iff i j, contains-keys-insert k j v m)

  pub nodup-keys-insert :
      (k : K) (v : V) (m : Map K V) → nodup (keys m) ≡ true → nodup (keys (insert k v m)) ≡ true
  unfolding insert
  nodup-keys-insert k v [] h = refl
  nodup-keys-insert k v ((i, w) ∷ m) h =
      ground (
        arith,
        e.same_iff i k,
        e.same_iff k i,
        nodup-keys-insert k v m,
        contains-keys-insert k i v m,
      )

  pub contains-keys_of_lookup :
      (k : K) (m : Map K V) {v : V} → lookup k m ≡ some v → contains (keys m) k ≡ true
  unfolding lookup
  contains-keys_of_lookup k [] h = ground arith
  contains-keys_of_lookup k ((i, w) ∷ m) h = elim (Bool-cases (i == k)) [
    | inl same ↦ ground arith
    | inr other ↦ ground (arith, contains-keys_of_lookup k m (rw (other, lookup) at h))
  ]

  pub lookup_of_contains-keys :
      (k : K) (m : Map K V) → contains (keys m) k ≡ true → (v : V) × (lookup k m ≡ some v)
  unfolding lookup
  lookup_of_contains-keys k [] h = cc
  lookup_of_contains-keys k ((i, w) ∷ m) h = elim (Bool-cases (i == k)) [
    | inl same ↦ (w, rw (same, lookup))
    | inr other ↦
        let (v, found) = lookup_of_contains-keys k m (ground arith) in (v, rw (other, lookup) found)
  ]

  pub lookup_missing : (k : K) (m : Map K V) → contains (keys m) k ≡ false → lookup k m ≡ none
  unfolding lookup
  lookup_missing k [] h = refl
  lookup_missing k ((i, w) ∷ m) h = ground (arith, lookup_missing k m)

  pub contains-keys :
      (k : K) (m : Map K V)
      → contains (keys m) k ≡ elim (lookup k m) [ none ↦ false | some _ ↦ true ]
  contains-keys k m = elim (Option-cases (lookup k m)) [
    | inl missing ↦ rw missing (elim (Bool-cases (contains (keys m) k)) [
      | inl here ↦ let (v, found) = lookup_of_contains-keys k m here in cc
      | inr gone ↦ gone
    ])
    | inr (v, found) ↦ rw found (contains-keys_of_lookup k m found)
  ]

module _ {ℓ κ ι} {K : Type ℓ} {V : Type κ} {W : Type ι} ⦃e : Comparable K⦄ where
  -- A range over a map that writes another map at each key, from what that map held there.
  unfoldable pub insert_each : (K → V → Option W → W) → Map K V → Map K W → Map K W
  insert_each f [] acc = acc
  insert_each f ((k, v) ∷ m) acc = insert_each f m (insert k (f k v (lookup k acc)) acc)

  pub lookup-insert_each_missing :
      (f : K → V → Option W → W) (m : Map K V) (acc : Map K W) (k : K)
      → contains (keys m) k ≡ false
      → lookup k (insert_each f m acc) ≡ lookup k acc
  unfolding insert_each
  lookup-insert_each_missing f [] acc k h = refl
  lookup-insert_each_missing f ((j, v) ∷ m) acc k h =
      lookup-insert_each_missing f m (insert j (f j v (lookup j acc)) acc) k (ground arith)
      ∙ ground (arith, lookup-insert j k (f j v (lookup j acc)) acc)

  pub lookup-insert_each :
      (f : K → V → Option W → W) (m : Map K V) (acc : Map K W) (k : K) {v : V}
      → nodup (keys m) ≡ true
      → lookup k m ≡ some v
      → lookup k (insert_each f m acc) ≡ some (f k v (lookup k acc))
  unfolding insert_each lookup
  lookup-insert_each f [] acc k d h = ground arith
  lookup-insert_each f ((j, w) ∷ m) acc k {v} d h = elim (Bool-cases (j == k)) [
    | inl same ↦
        let found : w ≡ v = ground arith in
        let key : j ≡ k = (e.same_iff j k).0 same in
        lookup-insert_each_missing f m (insert j (f j w (lookup j acc)) acc) k
          (ground (arith, key, d))
        ∙ lookup-insert j k (f j w (lookup j acc)) acc
        ∙ rw (same, found, key)
    | inr other ↦
        lookup-insert_each f m (insert j (f j w (lookup j acc)) acc) k (ground arith)
          (rw (other, lookup) at h)
        ∙ ap (λ o. some (f k v o)) (lookup-insert j k (f j w (lookup j acc)) acc ∙ rw other)
  ]
