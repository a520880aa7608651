-- ===== src/Public/Pages/Order.antt =====
-- Rows in the order of their IDs: what a query sorts, and the rows from an ID on.
use Prim.Native.String.{String}
use transiter.Base.{
  Bool, Bool-cases, List, [], ap, arith, contains, false, inl, inr, map, nat_keys, nodup, not, refl,
  string_keys, suc, true, zero, ℕ, ◌&&◌, ◌∷◌, ◌≡◌,
}
use transiter.Base.Int.{int_keys}
use transiter.Public.Pages.{TextOrder, from_id, insert_by_id, order_by_id, where_rows}

abbrev pub drop {ℓ} : {A : Type ℓ} → ℕ → List A → List A
drop zero xs = xs
drop (suc n) [] = []
drop (suc n) (x ∷ xs) = drop n xs

module _ {ℓ} {A : Type ℓ} (o : TextOrder) (id_of : A → String) where
  abbrev pub all_after : A → List A → Bool
  all_after x [] = true
  all_after x (y ∷ ys) = not (o.at_most (id_of y) (id_of x)) && all_after x ys

  -- Strictly increasing IDs.
  abbrev pub increasing : List A → Bool
  increasing [] = true
  increasing (x ∷ xs) = all_after x xs && increasing xs

  all_after_later :
      (x y : A) (ys : List A)
      → o.at_most (id_of x) (id_of y) ≡ true
      → all_after y ys ≡ true
      → all_after x ys ≡ true
  all_after_later x y [] h a = refl
  all_after_later x y (z ∷ zs) h a =
      ground (arith, all_after_later x y zs, o.at_most_trans (id_of z) (id_of x) (id_of y))

  all_after-where :
      (p : A → Bool) (x : A) (ys : List A)
      → all_after x ys ≡ true
      → all_after x (where_rows p ys) ≡ true
  unfolding where_rows
  all_after-where p x [] a = refl
  all_after-where p x (y ∷ ys) a = ground (arith, all_after-where p x ys)

  pub increasing-where :
      (p : A → Bool) (xs : List A) → increasing xs ≡ true → increasing (where_rows p xs) ≡ true
  unfolding where_rows
  increasing-where p [] a = refl
  increasing-where p (x ∷ xs) a = ground (arith, increasing-where p xs, all_after-where p x xs)

  pub increasing-from_id :
      (first : String) (xs : List A)
      → increasing xs ≡ true
      → increasing (from_id o id_of first xs) ≡ true
  unfolding from_id
  increasing-from_id first = increasing-where (λ x. o.at_most first (id_of x))

  all_after-insert_by_id :
      (x y : A) (ys : List A)
      → o.at_most (id_of y) (id_of x) ≡ false
      → all_after x ys ≡ true
      → all_after x (insert_by_id o id_of y ys) ≡ true
  unfolding insert_by_id
  all_after-insert_by_id x y [] h a = ground arith
  all_after-insert_by_id x y (z ∷ zs) h a = ground (arith, all_after-insert_by_id x y zs)

  increasing-insert_by_id :
      (x : A) (ys : List A)
      → contains (map id_of ys) (id_of x) ≡ false
      → increasing ys ≡ true
      → increasing (insert_by_id o id_of x ys) ≡ true
  unfolding insert_by_id
  increasing-insert_by_id x [] h a = refl
  increasing-insert_by_id x (y ∷ ys) h a = elim (Bool-cases (o.at_most (id_of x) (id_of y))) [
    | inl before ↦ rw before (
        ground (
          arith,
          all_after_later x y ys,
          o.at_most_antisym (id_of x) (id_of y),
          string_keys.same_iff (id_of y) (id_of x),
        ))
    | inr after ↦
        rw after (ground (arith, increasing-insert_by_id x ys, all_after-insert_by_id y x ys))
  ]

  contains-insert_by_id :
      (x : A) (ys : List A) (id : String)
      → contains (map id_of (insert_by_id o id_of x ys)) id ≡ contains (map id_of (x ∷ ys)) id
  unfolding insert_by_id
  contains-insert_by_id x [] id = refl
  contains-insert_by_id x (y ∷ ys) id = ground (arith, contains-insert_by_id x ys id)

  contains-order_by_id :
      (xs : List A) (id : String)
      → contains (map id_of (order_by_id o id_of xs)) id ≡ contains (map id_of xs) id
  unfolding order_by_id
  contains-order_by_id [] id = refl
  contains-order_by_id (x ∷ xs) id =
      ground
        (arith, contains-insert_by_id x (order_by_id o id_of xs) id, contains-order_by_id xs id)

  pub increasing-order_by_id :
      (xs : List A) → nodup (map id_of xs) ≡ true → increasing (order_by_id o id_of xs) ≡ true
  unfolding order_by_id
  increasing-order_by_id [] h = refl
  increasing-order_by_id (x ∷ xs) h = ground (
    arith,
    increasing-insert_by_id x (order_by_id o id_of xs),
    contains-order_by_id xs (id_of x),
    increasing-order_by_id xs,
  )

  from_id-all_after :
      (x : A) (ys : List A) → all_after x ys ≡ true → from_id o id_of (id_of x) ys ≡ ys
  unfolding from_id where_rows
  from_id-all_after x [] a = refl
  from_id-all_after x (y ∷ ys) a = elim (Bool-cases (o.at_most (id_of x) (id_of y))) [
    | inl before ↦ rw before (ap (λ zs. y ∷ zs) (from_id-all_after x ys (ground arith)))
    | inr after ↦ absurd (ground (arith, o.at_most_total (id_of x) (id_of y)))
  ]

  all_after-drop :
      (x : A) (n : ℕ) (xs : List A) {y : A} {ys : List A}
      → all_after x xs ≡ true
      → drop n xs ≡ y ∷ ys
      → o.at_most (id_of y) (id_of x) ≡ false
  all_after-drop x zero [] a e = absurd (cc e)
  all_after-drop x zero (z ∷ zs) a e = ground arith
  all_after-drop x (suc n) [] a e = absurd (cc e)
  all_after-drop x (suc n) (z ∷ zs) a e = all_after-drop x n zs (ground arith) e

  -- The rows from the ID of one of them on are those that stand after it.
  pub from_id-drop :
      (n : ℕ) (xs : List A) {y : A} {ys : List A}
      → increasing xs ≡ true
      → drop n xs ≡ y ∷ ys
      → from_id o id_of (id_of y) xs ≡ y ∷ ys
  unfolding from_id where_rows
  from_id-drop zero xs {y} {ys} a e = rw e (
      rw (o.at_most_refl (id_of y))
        (ap (λ zs. y ∷ zs) (from_id-all_after y ys (ground (arith, rw e at a)))))
  from_id-drop (suc n) [] a e = absurd (cc e)
  from_id-drop (suc n) (x ∷ xs) {y} {ys} a e =
      rw (all_after-drop x n xs (ground arith) e) (from_id-drop n xs (ground arith) e)

  pub from_id-from_id :
      (a b : String) (xs : List A)
      → o.at_most a b ≡ true
      → from_id o id_of b (from_id o id_of a xs) ≡ from_id o id_of b xs
  unfolding from_id where_rows
  from_id-from_id a b [] h = refl
  from_id-from_id a b (x ∷ xs) h =
      ground (arith, from_id-from_id a b xs, o.at_most_trans a b (id_of x))

  -- A row that stands in the rows from an ID on is not before that ID.
  pub at_most-from_id :
      (first : String) (n : ℕ) (xs : List A) {y : A} {ys : List A}
      → drop n (from_id o id_of first xs) ≡ y ∷ ys
      → o.at_most first (id_of y) ≡ true
  unfolding from_id where_rows
  at_most-from_id first zero [] e = absurd (cc e)
  at_most-from_id first (suc n) [] e = absurd (cc e)
  at_most-from_id first zero (x ∷ xs) e = elim (Bool-cases (o.at_most first (id_of x))) [
    | inl here ↦ ground (arith, rw here at e)
    | inr gone ↦ at_most-from_id first zero xs (rw gone at e)
  ]
  at_most-from_id first (suc n) (x ∷ xs) e = elim (Bool-cases (o.at_most first (id_of x))) [
    | inl here ↦ at_most-from_id first n xs (rw here at e)
    | inr gone ↦ at_most-from_id first (suc n) xs (rw gone at e)
  ]
