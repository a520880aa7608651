-- ===== src/ServiceMaps/Reverse.antt =====
-- The loop that swaps the ends of a slice and moves inwards, as `reverse` and `calculateTripKey`
-- write it, over the indices of the slice.
use mathlib.Core.List.{reverse, reverse-cons}
use transiter.Base.{
  Bool-cases, List, Option, [], ap, arith, if◌then◌else◌, inl, inr, leb, length, length-append, ltb,
  nat_keys, none, refl, some, string_keys, suc, sym, zero, ℕ, ◌&&◌, ◌++◌, ◌+◌, ◌-◌, ◌<◌, ◌==◌, ◌∙◌,
  ◌∷◌, ◌≡◌, ◌≤◌,
}
use transiter.Graph.Types.{edge_keys}

module _ {A : Type 0} where
  abbrev pub get_elem? : List A → ℕ → Option A
  get_elem? [] i = none
  get_elem? (x ∷ xs) zero = some x
  get_elem? (x ∷ xs) (suc i) = get_elem? xs i

  abbrev pub set : List A → ℕ → A → List A
  set [] i v = []
  set (x ∷ xs) zero v = v ∷ xs
  set (x ∷ xs) (suc i) v = x ∷ set xs i v

  -- `s[i], s[j] = s[j], s[i]`; the loop keeps both indices in range.
  unfoldable pub swap : List A → ℕ → ℕ → List A
  swap s i j = elim (get_elem? s i) [
    | none ↦ s
    | some a ↦ elim (get_elem? s j) [ none ↦ s | some b ↦ set (set s i b) j a ]
  ]

  unfoldable pub reverse_loop : ℕ → ℕ → ℕ → List A → List A
  unfolding swap
  reverse_loop zero i j s = s
  reverse_loop (suc fuel) i j s =
      let next = reverse_loop fuel (i + 1) (j - 1) (swap s i j) in if ltb i j then next else s

  -- On the empty slice Go starts with j = -1, and the loop makes no round either way.
  unfoldable pub reverse_slice : List A → List A
  unfolding reverse_loop
  reverse_slice s = reverse_loop (length s) 0 (length s - 1) s

  get_elem?-set :
      (xs : List A) (i k : ℕ) (v : A)
      → i < length xs
      → get_elem? (set xs i v) k ≡ (if k == i then some v else get_elem? xs k)
  get_elem?-set [] i k v h = absurd (omega arith)
  get_elem?-set (x ∷ xs) zero zero v h = refl
  get_elem?-set (x ∷ xs) zero (suc k) v h = ground arith
  get_elem?-set (x ∷ xs) (suc i) zero v h = ground arith
  get_elem?-set (x ∷ xs) (suc i) (suc k) v h = ground (arith, get_elem?-set xs i k v)

  length-set : (xs : List A) (i : ℕ) (v : A) → length (set xs i v) ≡ length xs
  length-set [] i v = refl
  length-set (x ∷ xs) zero v = refl
  length-set (x ∷ xs) (suc i) v = ap suc (length-set xs i v)

  get_elem?-some : (xs : List A) (i : ℕ) → i < length xs → (a : A) × (get_elem? xs i ≡ some a)
  get_elem?-some [] i h = absurd (omega arith)
  get_elem?-some (x ∷ xs) zero h = (x, refl)
  get_elem?-some (x ∷ xs) (suc i) h = get_elem?-some xs i (omega arith)

  module _ (s : List A) (i j : ℕ) (hi : i < length s) (hj : j < length s) where
    length-swap : length (swap s i j) ≡ length s
    unfolding swap
    length-swap =
        let (a, p) = get_elem?-some s i hi in
        let (b, q) = get_elem?-some s j hj in
        rw (p, swap) (rw (q, swap) (length-set (set s i b) j a ∙ length-set s i b))

    get_elem?-swap :
        (k : ℕ)
        → get_elem? (swap s i j) k
          ≡ (if k == j then get_elem? s i else if k == i then get_elem? s j else get_elem? s k)
    unfolding swap
    get_elem?-swap k =
        let (a, p) = get_elem?-some s i hi in
        let (b, q) = get_elem?-some s j hj in
        ground
          (arith, p, q, get_elem?-set (set s i b) j k a, get_elem?-set s i k b, length-set s i b)

  -- The item at a place of the slice when the ends from `i` to `j` are still to be swapped.
  mirrored : List A → ℕ → ℕ → ℕ → Option A
  mirrored s i j k = if leb i k && leb k j then get_elem? s (length s - 1 - k) else get_elem? s k

  mirrored_done :
      (s : List A) (i j k : ℕ) → i + j + 1 ≡ length s → j ≤ i → mirrored s i j k ≡ get_elem? s k
  unfolding mirrored
  mirrored_done s i j k n stop = elim (Bool-cases (leb i k && leb k j)) [
    | inr outside ↦ rw outside
    | inl inside ↦
        let same : length s - 1 - k ≡ k = ground arith in rw inside (ap (get_elem? s) same)
  ]

  mirrored-swap :
      (s : List A) (i j k : ℕ)
      → i + j + 1 ≡ length s
      → i < j
      → mirrored (swap s i j) (i + 1) (j - 1) k ≡ mirrored s i j k
  unfolding mirrored
  mirrored-swap s i j k n go =
      let at = get_elem?-swap s i j (omega arith) (omega arith) in
      let same = length-swap s i j (omega arith) (omega arith) in
      let left : length s - 1 - j ≡ i = omega arith in
      let right : length s - 1 - i ≡ j = omega arith in
      rw same
        (ground (arith, at k, at (length s - 1 - k), ap (get_elem? s) left, ap (get_elem? s) right))

  get_elem?-reverse_loop :
      (fuel i j : ℕ) (s : List A) (k : ℕ)
      → i + j + 1 ≡ length s
      → j ≤ i + fuel
      → get_elem? (reverse_loop fuel i j s) k ≡ mirrored s i j k
  unfolding reverse_loop
  get_elem?-reverse_loop zero i j s k n enough = sym (mirrored_done s i j k n (omega arith))
  get_elem?-reverse_loop (suc fuel) i j s k n enough = elim (Bool-cases (ltb i j)) [
    | inr stop ↦ rw stop (sym (mirrored_done s i j k n (ground arith)))
    | inl go ↦
        let lt : i < j = ground arith in
        rw go (
          get_elem?-reverse_loop fuel (i + 1) (j - 1) (swap s i j) k
            (omega (arith, length-swap s i j (omega arith) (omega arith))) (omega arith)
          ∙ mirrored-swap s i j k n lt)
  ]

  get_elem?-append :
      (xs ys : List A) (k : ℕ)
      → get_elem? (xs ++ ys) k
        ≡ (if ltb k (length xs) then get_elem? xs k else get_elem? ys (k - length xs))
  get_elem?-append [] ys k = ground arith
  get_elem?-append (x ∷ xs) ys zero = ground arith
  get_elem?-append (x ∷ xs) ys (suc k) = get_elem?-append xs ys k ∙ ground arith

  length-reverse : (xs : List A) → length (reverse xs) ≡ length xs
  length-reverse [] = refl
  length-reverse (x ∷ xs) =
      rw reverse-cons (omega (arith, length-append (reverse xs) (x ∷ []), length-reverse xs))

  get_elem?-none : (xs : List A) (k : ℕ) → length xs ≤ k → get_elem? xs k ≡ none
  get_elem?-none [] k h = refl
  get_elem?-none (x ∷ xs) zero h = absurd (omega arith)
  get_elem?-none (x ∷ xs) (suc k) h = get_elem?-none xs k (omega arith)

  snoc_mirrored :
      (x : A) (xs : List A) (k : ℕ)
      → (if ltb k (length xs)
          then (if ltb k (length xs) then get_elem? xs (length xs - 1 - k) else none)
          else get_elem? (x ∷ []) (k - length xs))
        ≡ (if ltb k (suc (length xs)) then get_elem? (x ∷ xs) (suc (length xs) - 1 - k) else none)
  snoc_mirrored x xs k = elim (Bool-cases (ltb k (length xs))) [
    | inl inside ↦
        let next : suc (length xs) - 1 - k ≡ suc (length xs - 1 - k) = ground arith in
        ground (arith, ap (get_elem? (x ∷ xs)) next)
    | inr outside ↦ elim (Bool-cases (k == length xs)) [
      | inl last ↦
          let first : suc (length xs) - 1 - k ≡ 0 = ground arith in
          let only : k - length xs ≡ 0 = ground arith in
          ground (arith, ap (get_elem? (x ∷ xs)) first, ap (get_elem? (x ∷ [])) only)
      | inr beyond ↦
          let past : length {A = A} (x ∷ []) ≤ k - length xs = ground arith in
          ground (arith, get_elem?-none (x ∷ []) (k - length xs) past)
    ]
  ]

  get_elem?-reverse :
      (xs : List A) (k : ℕ)
      → get_elem? (reverse xs) k
        ≡ (if ltb k (length xs) then get_elem? xs (length xs - 1 - k) else none)
  get_elem?-reverse [] k = ground arith
  get_elem?-reverse (x ∷ xs) k =
      ap (λ ys. get_elem? ys k) (reverse-cons x xs)
      ∙ get_elem?-append (reverse xs) (x ∷ []) k
      ∙ rw (length-reverse xs, get_elem?-reverse xs k) (snoc_mirrored x xs k)

  ext_get_elem? : (xs ys : List A) → ((k : ℕ) → get_elem? xs k ≡ get_elem? ys k) → xs ≡ ys
  ext_get_elem? [] [] h = refl
  ext_get_elem? [] (y ∷ ys) h = absurd (ground (arith, h 0))
  ext_get_elem? (x ∷ xs) [] h = absurd (ground (arith, h 0))
  ext_get_elem? (x ∷ xs) (y ∷ ys) h = ground (arith, h 0, ext_get_elem? xs ys (λ k. h (suc k)))

  -- The loop reverses the slice.
  pub reverse_slice_lem : (s : List A) → reverse_slice s ≡ reverse s
  unfolding reverse_slice mirrored
  reverse_slice_lem [] = refl
  reverse_slice_lem (x ∷ xs) = ext_get_elem? (reverse_slice (x ∷ xs)) (reverse (x ∷ xs)) (λ k.
      get_elem?-reverse_loop (length (x ∷ xs)) 0 (length (x ∷ xs) - 1) (x ∷ xs) k (omega arith)
        (omega arith)
      ∙ ground (arith, get_elem?-reverse (x ∷ xs) k, get_elem?-none (x ∷ xs) k))
