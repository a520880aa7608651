-- ===== src/Public/Pages.antt =====
-- The pagination that ListStops, ListVehicles and ListShapes of internal/public/endpoints share,
-- and their queries in db/queries, over a table whose rows have distinct IDs.
pub mod Order
pub mod Walk
use Prim.Native.String.{String}
use transiter.Base.{
  Bool, List, Option, [], arith, false, if◌then◌else◌, length, nat_keys, none, not, some,
  string_keys, suc, true, zero, ℕ, ◌==◌, ◌∷◌, ◌≡◌, ◌≤◌,
}
use transiter.Base.Int.{int_keys, ltb_ℤ, negsuc, pos, suc_ℤ, ℤ}
use transiter.Public.Results.{Queried, Response, answer, panics, query_error, query_failure, reply}

-- The order of the database on IDs: its collation.
pub record TextOrder : Type 0 where
  pub at_most : String → String → Bool
  pub at_most_refl : (a : String) → at_most a a ≡ true
  pub at_most_trans :
      (a b c : String) → at_most a b ≡ true → at_most b c ≡ true → at_most a c ≡ true
  pub at_most_total : (a b : String) → at_most a b ≡ false → at_most b a ≡ true
  pub at_most_antisym : (a b : String) → at_most a b ≡ true → at_most b a ≡ true → a ≡ b

-- The number of entities that a request asks for.
unfoldable pub base_limit : ℤ → ℤ
base_limit max_entities = if ltb_ℤ (pos 0) max_entities then max_entities else pos 2_147_483_646

unfoldable pub page_limit : ℤ → Option ℤ → ℤ
unfolding base_limit
page_limit max_entities none = base_limit max_entities
page_limit max_entities (some limit) =
    if ltb_ℤ limit (base_limit max_entities) then limit else base_limit max_entities

-- `n + 1` of an int32.
unfoldable pub next_int32 : ℤ → ℤ
next_int32 n = if n == pos 2_147_483_647 then negsuc 2_147_483_647 else suc_ℤ n

unfoldable pub split_last {ℓ} : {A : Type ℓ} → List A → Option (List A × A)
split_last [] = none
split_last (x ∷ xs) = elim (split_last xs) [
  | none ↦ some ([], x)
  | some (front, last) ↦ some (x ∷ front, last)
]

-- The rows of the page and the ID of the next one, where the query gave as many rows as it was
-- asked for. The last element of an empty slice panics.
unfoldable pub cut_page {ℓ} :
    {A : Type ℓ} → (A → String) → ℤ → List A → Response (List A × Option String)
unfolding split_last
cut_page id_of asked fetched =
    if pos (length fetched) == asked
    then elim (split_last fetched) [
      | none ↦ panics
      | some (front, last) ↦ reply (front, some (id_of last))
    ]
    else reply (fetched, none)

abbrev pub take {ℓ} : {A : Type ℓ} → ℕ → List A → List A
take zero xs = []
take (suc n) [] = []
take (suc n) (x ∷ xs) = x ∷ take n xs

-- A page has at most the limit, however many rows the query is asked for.
pub take-length {ℓ} : {A : Type ℓ} (n : ℕ) (xs : List A) → length (take n xs) ≤ n
take-length zero xs = omega arith
take-length (suc n) [] = omega arith
take-length (suc n) (x ∷ xs) = omega (arith, take-length n xs)

module _ {ℓ} {A : Type ℓ} where
  unfoldable pub where_rows : (A → Bool) → List A → List A
  where_rows p [] = []
  where_rows p (x ∷ xs) = let rest = where_rows p xs in if p x then x ∷ rest else rest

  -- `LIMIT n`, which is an error when it is negative.
  unfoldable pub limit_rows : ℤ → List A → Queried (List A)
  limit_rows (pos n) xs = answer (take n xs)
  limit_rows (negsuc n) xs = query_error (query_failure "LIMIT must not be negative")

  module _ (o : TextOrder) (id_of : A → String) where
    unfoldable pub insert_by_id : A → List A → List A
    insert_by_id x [] = x ∷ []
    insert_by_id x (y ∷ ys) =
        let rest = insert_by_id x ys in
        if o.at_most (id_of x) (id_of y) then x ∷ y ∷ ys else y ∷ rest

    -- `ORDER BY id`
    unfoldable pub order_by_id : List A → List A
    unfolding insert_by_id
    order_by_id [] = []
    order_by_id (x ∷ xs) = insert_by_id x (order_by_id xs)

    -- `WHERE id >= first AND ... ORDER BY id LIMIT n`
    unfoldable pub from_id : String → List A → List A
    unfolding where_rows
    from_id first = where_rows (λ x. o.at_most first (id_of x))

    unfoldable pub page_query : (A → Bool) → List A → String → ℤ → Queried (List A)
    unfolding limit_rows from_id order_by_id where_rows
    page_query selected table first n =
        limit_rows n (from_id first (where_rows selected (order_by_id table)))
