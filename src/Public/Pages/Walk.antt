-- ===== src/Public/Pages/Walk.antt =====
-- A client that follows the ID of the next page until a reply has none.
use Prim.Native.String.{String}
use native.Mathlib.Decide.{dec_lt}
use transiter.Base.{
  List, Option, [], ap, arith, false, inl, inr, length, map, nat_keys, nat_same, none, refl, some,
  string_keys, suc, sym, true, zero, ℕ, ◌++◌, ◌+◌, ◌<◌, ◌∙◌, ◌∷◌, ◌≡◌, ◌≤◌, ◌⊎◌,
}
use transiter.Base.Int.{int_keys, pos}
use transiter.Public.Pages.{TextOrder, cut_page, from_id, split_last, take}
use transiter.Public.Pages.Order.{
  at_most-from_id, drop, from_id-drop, from_id-from_id, increasing, increasing-from_id,
}
use transiter.Public.Results.{Response, and_then, failed, panics, reply}

abbrev pub page_before {ℓ} : {B : Type ℓ} → List B → Option (List B) → Option (List B)
page_before page none = none
page_before page (some rest) = some (page ++ rest)

-- The entities of all pages; none where the fuel ends first or a request fails.
unfoldable pub walk_pages {ℓ} :
    {B : Type ℓ} → (String → Response (List B × Option String)) → ℕ → String → Option (List B)
walk_pages fetch zero first = none
walk_pages fetch (suc fuel) first = elim (fetch first) [
  | failed e ↦ none
  | panics ↦ none
  | reply (page, none) ↦ some page
  | reply (page, some next) ↦ page_before page (walk_pages fetch fuel next)
]

module _ {ℓ} {A : Type ℓ} where
  pub split_last-take :
      (n : ℕ) (xs : List A)
      → n < length xs
      → (y : A) × (ys : List A) × (drop n xs ≡ y ∷ ys)
        × (split_last (take (suc n) xs) ≡ some (take n xs, y))
        × (length (take (suc n) xs) ≡ suc n)
  unfolding split_last
  split_last-take n [] h = absurd (omega arith)
  split_last-take zero (x ∷ xs) h = (x, xs, refl, refl, refl)
  split_last-take (suc n) (x ∷ xs) h =
      let (y, ys, dropped, split, count) = split_last-take n xs (omega arith) in
      (y, ys, dropped, rw split refl, omega (arith, count))

  pub take_all : (n : ℕ) (xs : List A) → length xs ≤ n → take n xs ≡ xs
  take_all zero [] h = refl
  take_all zero (x ∷ xs) h = absurd (omega arith)
  take_all (suc n) [] h = refl
  take_all (suc n) (x ∷ xs) h = ap (λ zs. x ∷ zs) (take_all n xs (omega arith))

  pub length-drop : (n : ℕ) (xs : List A) → length (drop n xs) + n ≡ length xs ⊎ (length xs ≤ n)
  length-drop zero xs = inl (omega arith)
  length-drop (suc n) [] = inr (omega arith)
  length-drop (suc n) (x ∷ xs) = elim (length-drop n xs) [
    | inl h ↦ inl (omega (arith, h))
    | inr h ↦ inr (omega (arith, h))
  ]

  -- The page when rows are left over, and when none is.
  pub cut_page-more :
      (id_of : A → String) (n : ℕ) (xs : List A)
      → n < length xs
      → (y : A) × (ys : List A) × (drop n xs ≡ y ∷ ys)
        × (cut_page id_of (pos (suc n)) (take (suc n) xs) ≡ reply (take n xs, some (id_of y)))
  unfolding cut_page
  cut_page-more id_of n xs h =
      let (y, ys, dropped, split, count) = split_last-take n xs h in
      let same : nat_same (suc n) (suc n) ≡ true = ground arith in
      (y, ys, dropped, rw count (rw same (rw split refl)))

  pub cut_page-last :
      (id_of : A → String) (n : ℕ) (xs : List A)
      → length xs ≤ n
      → cut_page id_of (pos (suc n)) (take (suc n) xs) ≡ reply (xs, none)
  unfolding cut_page
  cut_page-last id_of n xs h =
      let fewer : nat_same (length xs) (suc n) ≡ false = ground arith in
      rw (take_all (suc n) xs (omega arith)) (rw fewer refl)

-- The reply that a page gives, its rows shown by a function.
abbrev pub view_page {ℓ κ} :
    {A : Type ℓ} {B : Type κ} → (A → B) → List A × Option String → Response (List B × Option String)
view_page view (page, next) = reply (map view page, next)

map-take-drop {ℓ κ} :
    {A : Type ℓ} {B : Type κ} (f : A → B) (n : ℕ) (xs : List A) {rest : List A}
    → drop n xs ≡ rest
    → map f (take n xs) ++ map f rest ≡ map f xs
map-take-drop f zero xs e = ap (map f) (sym e)
map-take-drop f (suc n) [] e = ap (map f) (sym e)
map-take-drop f (suc n) (x ∷ xs) e = ap (λ zs. f x ∷ zs) (map-take-drop f n xs e)

module _ {ℓ κ} {A : Type ℓ} {B : Type κ} (o : TextOrder) (id_of : A → String) (view : A → B)
    (fetch : String → Response (List B × Option String)) (table : List A) (n : ℕ) where
  -- What each request gives when the limit is positive: a page of the rows from an ID on.
  abbrev pub GivesPages : Type κ
  GivesPages =
      (first : String)
      → fetch first
        ≡ and_then
            (cut_page id_of (pos (suc (suc n))) (take (suc (suc n)) (from_id o id_of first table)))
            (view_page view)

  -- The pages are the rows, each once and in order, and there is a last one.
  pub walk_pages-all :
      (gives : GivesPages) (ordered : increasing o id_of table ≡ true) (fuel : ℕ) (first : String)
      → length (from_id o id_of first table) < fuel
      → walk_pages fetch fuel first ≡ some (map view (from_id o id_of first table))
  unfolding walk_pages
  walk_pages-all gives ordered zero first h = absurd (omega arith)
  walk_pages-all gives ordered (suc fuel) first h =
      let rows_left : List A = from_id o id_of first table in
      elim (dec_lt (suc n) (length rows_left)) [
        | yes more ↦
            let (y, ys, dropped, cut) = cut_page-more id_of (suc n) rows_left more in
            let next : from_id o id_of (id_of y) table ≡ y ∷ ys =
              sym (
                from_id-from_id o id_of first (id_of y) table
                  (at_most-from_id o id_of first (suc n) table dropped))
              ∙ from_id-drop o id_of (suc n) rows_left
                  (increasing-from_id o id_of first table ordered) dropped in
            let count : suc (length ys) + suc n ≡ length rows_left =
              elim (length-drop (suc n) rows_left) [
                | inl c ↦ rw dropped at c
                | inr c ↦ absurd (omega (arith, c))
              ] in
            rw (gives first, walk_pages)
              (rw cut (
                rw (walk_pages-all gives ordered fuel (id_of y) (rw next (omega (arith, count))))
                  (rw next (ap some (map-take-drop view (suc n) rows_left dropped)))))
        | no less ↦
            rw (gives first, walk_pages)
              (rw (cut_page-last id_of (suc n) rows_left (omega (arith, less))) refl)
      ]
