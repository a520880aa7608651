-- ===== src/Public/Stops/Lifting.antt =====
-- Which rows stand at a stop of a reply: those of the stop's descendants. About append_at,
-- group_rows, lift_to_ancestors and the maps of descendants.
use mathlib.Core.List.{append-nil, append_assoc}
use transiter.Base.{
  Bool, Bool-cases, List, Option-cases, [], ap, arith, contains, contains-append, false,
  if◌then◌else◌, inl, inr, nat_keys, nodup, refl, string_keys, sym, true, ℕ, ◌&&◌, ◌++◌, ◌==◌, ◌||◌,
  ◌∙◌, ◌∷◌, ◌≡◌,
}
use transiter.Base.Int.{int_keys}
use transiter.Base.Maps.{
  Map, contains-keys, insert, keys, lookup, lookup-insert, lookup-insert_each,
  lookup-insert_each_missing, nodup-keys-insert,
}
use transiter.Public.Stops.RawData.{add_pk, add_pks, append_at, descendents_of_rows, list_at}
use transiter.Public.Stops.Response.{collect_items, group_rows, lift_to_ancestors}

pub contains-add_pk :
    (pk other : ℕ) (pks : List ℕ)
    → contains (add_pk pk pks) other ≡ (pk == other || contains pks other)
unfolding add_pk
contains-add_pk pk other pks = elim (Bool-cases (contains pks pk)) [
  | inl here ↦ rw here (ground (arith, here))
  | inr missing ↦ rw missing (ground (arith, contains-append pks (pk ∷ []) other))
]

pub contains-add_pks :
    (qs pks : List ℕ) (other : ℕ)
    → contains (add_pks qs pks) other ≡ (contains qs other || contains pks other)
unfolding add_pks
contains-add_pks [] pks other = refl
contains-add_pks (q ∷ qs) pks other =
    ground (arith, contains-add_pks qs (add_pk q pks) other, contains-add_pk q other pks)

pub list_at-insert {ℓ} :
    {V : Type ℓ} (key other : ℕ) (values : List V) (m : Map ℕ (List V))
    → list_at other (insert key values m) ≡ (if key == other then values else list_at other m)
list_at-insert key other values m = elim (Bool-cases (key == other)) [
  | inl same ↦ rw (lookup-insert key other values m, list_at) (rw same refl)
  | inr apart ↦ rw (lookup-insert key other values m, list_at) (rw apart refl)
]

-- The pairs of a root and a descendant.
abbrev pub is_pair : ℕ → ℕ → List (ℕ × ℕ) → Bool
is_pair root descendent [] = false
is_pair root descendent ((r, d) ∷ rest) =
    (r == root && d == descendent) || is_pair root descendent rest

pub contains-descendents_of_rows :
    (pairs : List (ℕ × ℕ)) (m : Map ℕ (List ℕ)) (root descendent : ℕ)
    → contains (list_at root (descendents_of_rows pairs m)) descendent
      ≡ (is_pair root descendent pairs || contains (list_at root m) descendent)
unfolding descendents_of_rows
contains-descendents_of_rows [] m root descendent = refl
contains-descendents_of_rows ((r, d) ∷ pairs) m root descendent = ground (
  arith,
  contains-descendents_of_rows pairs (insert r (add_pk d (list_at r m)) m) root descendent,
  list_at-insert r root (add_pk d (list_at r m)) m,
  contains-add_pk d descendent (list_at r m),
)

pub nodup-descendents_of_rows :
    (pairs : List (ℕ × ℕ)) (m : Map ℕ (List ℕ))
    → nodup (keys m) ≡ true
    → nodup (keys (descendents_of_rows pairs m)) ≡ true
unfolding descendents_of_rows
nodup-descendents_of_rows [] m h = h
nodup-descendents_of_rows ((r, d) ∷ pairs) m h =
    nodup-descendents_of_rows pairs _ (nodup-keys-insert r (add_pk d (list_at r m)) m h)

pub list_at-append_at {ℓ} :
    {V : Type ℓ} (key other : ℕ) (value : V) (m : Map ℕ (List V)) (rest : List V)
    → list_at other (append_at key value m) ++ rest
      ≡ list_at other m ++ (if key == other then value ∷ rest else rest)
unfolding append_at
list_at-append_at key other value m rest =
    let step = list_at-insert key other (list_at key m ++ value ∷ []) m in
    elim (Bool-cases (key == other)) [
      | inl same ↦
          let at_key : key ≡ other = (nat_keys.same_iff key other).0 same in
          let grown : list_at other (insert key (list_at key m ++ value ∷ []) m)
              ≡ list_at other m ++ value ∷ [] =
            step ∙ rw same (ap (λ k. list_at k m ++ value ∷ []) at_key) in
          rw same
            (ap (λ items. items ++ rest) grown ∙ append_assoc (list_at other m) (value ∷ []) rest)
      | inr apart ↦ rw apart (ap (λ items. items ++ rest) (step ∙ rw apart refl))
    ]

module _ {ℓ κ} {A : Type ℓ} {T : Type κ} (key_of : A → ℕ) (item_of : A → T) where
  -- The items of the rows of one stop, in order.
  abbrev pub items_at : ℕ → List A → List T
  items_at pk [] = []
  items_at pk (r ∷ rs) = if key_of r == pk then item_of r ∷ items_at pk rs else items_at pk rs

  pub list_at-group_rows :
      (rs : List A) (m : Map ℕ (List T)) (pk : ℕ)
      → list_at pk (group_rows key_of item_of rs m) ≡ list_at pk m ++ items_at pk rs
  unfolding group_rows append_at
  list_at-group_rows [] m pk = sym (append-nil (list_at pk m))
  list_at-group_rows (r ∷ rs) m pk =
      list_at-group_rows rs (append_at (key_of r) (item_of r) m) pk
      ∙ list_at-append_at (key_of r) pk (item_of r) m (items_at pk rs)

  -- The reference definition: the items of the descendants, one descendant after the other.
  abbrev pub items_of_each : List ℕ → List A → List T
  items_of_each [] rs = []
  items_of_each (pk ∷ pks) rs = items_at pk rs ++ items_of_each pks rs

  pub collect_items-group_rows :
      (pks : List ℕ) (rs : List A)
      → collect_items pks (group_rows key_of item_of rs []) ≡ items_of_each pks rs
  unfolding collect_items lookup
  collect_items-group_rows [] rs = refl
  collect_items-group_rows (pk ∷ pks) rs =
      rw (list_at-group_rows rs [] pk)
        (ap (λ items. items_at pk rs ++ items) (collect_items-group_rows pks rs))

pub list_at-lift_to_ancestors {ℓ} :
    {T : Type ℓ} (descendents : Map ℕ (List ℕ)) (items : Map ℕ (List T)) (pk : ℕ)
    → nodup (keys descendents) ≡ true
    → list_at pk (lift_to_ancestors descendents items)
      ≡ collect_items (list_at pk descendents) items
unfolding lift_to_ancestors collect_items lookup
list_at-lift_to_ancestors descendents items pk d = elim (Option-cases (lookup pk descendents)) [
  | inl missing ↦
      rw (missing, list_at)
        (rw
          (
            lookup-insert_each_missing (λ _ pks _. collect_items pks items) descendents [] pk
                (ground (arith, contains-keys pk descendents, missing)),
            list_at,
          )
          refl)
  | inr (pks, here) ↦
      rw (here, list_at)
        (rw
          (
            lookup-insert_each (λ _ pks _. collect_items pks items) descendents [] pk d here,
            list_at,
          )
          refl)
]
