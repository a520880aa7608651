-- ===== src/Base/Lists.antt =====
-- Lists over the native numbers, and sets of keys as lists.
use Prim.Native.Nat.{ℕ, suc, ◌+◌, ◌≤◌, ◌<◌}
use mathlib.Core.Path.{◌≡◌, refl, sym}
use mathlib.Core.Logic.{inl, inr, ◌↔◌}
use mathlib.Core.Bool.{Bool, true, false, not, ◌&&◌, ◌||◌}
use mathlib.Core.List.{List, [], ◌∷◌, ◌++◌, Memᴰ}
use mathlib.Core.List.Memᴰ
use native.Mathlib.Omega.{arith}
use transiter.Base.Tests.{Comparable, ◌==◌, if◌then◌else◌, Bool-cases}

module _ {ℓ} {A : Type ℓ} where
  abbrev pub length : List A → ℕ
  length [] = 0
  length (_ ∷ xs) = suc (length xs)

  pub length-append : (xs ys : List A) → length (xs ++ ys) ≡ length xs + length ys
  length-append [] ys = omega arith
  length-append (x ∷ xs) ys = omega (arith, length-append xs ys)

module _ {ℓ} {A : Type ℓ} ⦃e : Comparable A⦄ where
  -- Membership in a Go slice or in a map used as a set.
  abbrev pub contains : List A → A → Bool
  contains [] a = false
  contains (x ∷ xs) a = x == a || contains xs a

  abbrev pub nodup : List A → Bool
  nodup [] = true
  nodup (x ∷ xs) = not (contains xs x) && nodup xs

  -- How often an item stands in a list.
  abbrev pub occ : A → List A → ℕ
  occ a [] = 0
  occ a (x ∷ xs) = (if x == a then 1 else 0) + occ a xs

  pub contains-append :
      (xs ys : List A) (a : A) → contains (xs ++ ys) a ≡ (contains xs a || contains ys a)
  contains-append [] ys a = refl
  contains-append (x ∷ xs) ys a = ground (arith, contains-append xs ys a)

  pub contains-Memᴰ : (xs : List A) (a : A) → contains xs a ≡ true → Memᴰ a xs
  contains-Memᴰ [] a h = ground arith
  contains-Memᴰ (x ∷ xs) a h = elim (Bool-cases (x == a)) [
    | inl same ↦ Memᴰ.head (sym ((e.same_iff x a).0 same))
    | inr other ↦ Memᴰ.tail (contains-Memᴰ xs a (ground arith))
  ]

  pub Memᴰ-contains : (xs : List A) (a : A) → Memᴰ a xs → contains xs a ≡ true
  Memᴰ-contains [] a m = absurd (Memᴰ.not-nil m)
  Memᴰ-contains (x ∷ xs) a m = elim (Memᴰ.cases_cons m) [
    | inl same ↦ ground (arith, e.same_iff x a)
    | inr later ↦ ground (arith, Memᴰ-contains xs a later)
  ]

  pub nodup-snoc : (xs : List A) (a : A) → nodup (xs ++ a ∷ []) ≡ (not (contains xs a) && nodup xs)
  nodup-snoc [] a = refl
  nodup-snoc (x ∷ xs) a =
      ground (arith, nodup-snoc xs a, contains-append xs (a ∷ []) x, e.same_iff x a, e.same_iff a x)

  -- The list without one item, wherever it stands.
  abbrev pub without : A → List A → List A
  without a [] = []
  without a (x ∷ xs) = let rest = without a xs in if x == a then rest else x ∷ rest

  pub contains-without :
      (a b : A) (xs : List A) → contains (without a xs) b ≡ (not (a == b) && contains xs b)
  contains-without a b [] = ground arith
  contains-without a b (x ∷ xs) =
      ground (arith, contains-without a b xs, e.same_iff x a, e.same_iff x b, e.same_iff a b)

  pub length-without :
      (a : A) (xs : List A) → contains xs a ≡ true → length (without a xs) < length xs
  length-without a [] h = ground arith
  length-without a (x ∷ xs) h = ground (arith, length-without a xs, length-without_le a xs)
    where
      length-without_le : (b : A) (ys : List A) → length (without b ys) ≤ length ys
      length-without_le b [] = omega arith
      length-without_le b (y ∷ ys) = ground (arith, length-without_le b ys)

  -- Distinct items that all stand in another list are at most as many as it has.
  pub length-le_of_nodup :
      (xs ys : List A)
      → nodup xs ≡ true
      → ((a : A) → contains xs a ≡ true → contains ys a ≡ true)
      → length xs ≤ length ys
  length-le_of_nodup [] ys d h = omega arith
  length-le_of_nodup (x ∷ xs) ys d h = ground (
    arith,
    length-le_of_nodup xs (without x ys) (ground arith) within,
    length-without x ys,
    h x,
    e.same_iff x x,
  )
    where
      within : (a : A) → contains xs a ≡ true → contains (without x ys) a ≡ true
      within a m = ground (arith, contains-without x a ys, h a, e.same_iff x a)

  pub occ_pos : (a : A) (xs : List A) → (contains xs a ≡ false) ↔ (occ a xs ≡ 0)
  occ_pos a [] = ground arith
  occ_pos a (x ∷ xs) = ground (arith, occ_pos a xs)
