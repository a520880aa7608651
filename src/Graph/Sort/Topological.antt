-- ===== src/Graph/Sort/Topological.antt =====
-- What a topological order of the nodes of a list of edges is, with no reference to an algorithm.
use mathlib.Core.List.Memᴰ
use mathlib.Core.Bool.{false≢true}
use transiter.Base.{
  Bool, Bool-cases, List, Memᴰ, [], arith, contains, contains-append, false, if◌then◌else◌, inl,
  inr, length, nat_keys, nat_same_iff, nodup, not, occ, refl, string_keys, suc, true, ℕ, ◌&&◌, ◌++◌,
  ◌+◌, ◌<◌, ◌==◌, ◌∷◌, ◌≡◌,
}
use transiter.Graph.Types.{Edge, edge_keys}
use transiter.Graph.Types.Adjacency.{is_end, sources, targets}

-- The first occurrence of one label stands before an occurrence of another.
abbrev pub precedes : ℕ → ℕ → List ℕ → Bool
precedes u v [] = false
precedes u v (x ∷ xs) = if x == u then contains xs v else precedes u v xs

pub record IsTopologicalOrder (es : List Edge) (order : List ℕ) : Type 0 where
  pub distinct : nodup order ≡ true
  pub complete : (l : ℕ) → contains order l ≡ is_end es l
  pub sorted_by_edges : (e : Edge) → Memᴰ e es → precedes e.from_label e.to_label order ≡ true

-- A rank of the nodes that grows along each edge: there is one exactly if the edges have no cycle.
abbrev pub IsRanking : List Edge → (ℕ → ℕ) → Type 0
IsRanking es rank = (e : Edge) → Memᴰ e es → rank e.from_label < rank e.to_label

pub precedes-append :
    (u v : ℕ) (xs ys : List ℕ) → precedes u v xs ≡ true → precedes u v (xs ++ ys) ≡ true
precedes-append u v [] ys h = ground arith
precedes-append u v (x ∷ xs) ys h =
    ground (arith, precedes-append u v xs ys, contains-append xs ys v)

pub precedes-snoc :
    (u v : ℕ) (xs : List ℕ) → contains xs u ≡ true → precedes u v (xs ++ v ∷ []) ≡ true
precedes-snoc u v [] h = ground arith
precedes-snoc u v (x ∷ xs) h = ground (arith, precedes-snoc u v xs, contains-append xs (v ∷ []) v)

-- The edges into a label from nodes that a list does not hold.
abbrev pub pending : List Edge → List ℕ → ℕ → ℕ
pending [] done l = 0
pending (e ∷ es) done l =
    (if e.to_label == l && not (contains done e.from_label) then 1 else 0) + pending es done l

pub pending-snoc :
    (es : List Edge) (done : List ℕ) (next l : ℕ)
    → contains done next ≡ false
    → pending es (done ++ next ∷ []) l + occ l (targets next es) ≡ pending es done l
pending-snoc [] done next l h = omega arith
pending-snoc (e ∷ es) done next l h = ground (
  arith,
  pending-snoc es done next l,
  contains-append done (next ∷ []) e.from_label,
  nat_same_iff e.from_label next,
)

pub pending-none : (es : List Edge) (l : ℕ) → pending es [] l ≡ length (sources l es)
pending-none [] l = refl
pending-none (e ∷ es) l = ground (arith, pending-none es l)

pub pending_zero :
    (es : List Edge) (done : List ℕ) (e : Edge)
    → Memᴰ e es
    → pending es done e.to_label ≡ 0
    → contains done e.from_label ≡ true
pending_zero [] done e m h = absurd (Memᴰ.not-nil m)
pending_zero (x ∷ es) done e m h = elim (Memᴰ.cases_cons m) [
  | inl same ↦ ground arith
  | inr later ↦ pending_zero es done e later (ground arith)
]

pub pending_pos :
    (es : List Edge) (done : List ℕ) (l : ℕ)
    → 0 < pending es done l
    → (e : Edge) × Memᴰ e es × (e.to_label ≡ l) × (contains done e.from_label ≡ false)
pending_pos [] done l h = absurd (omega arith)
pending_pos (x ∷ es) done l h =
    elim (Bool-cases (x.to_label == l && not (contains done x.from_label))) [
      | inl here ↦ (x, Memᴰ.head refl, ground arith, ground arith)
      | inr there ↦
          let (e, m, at, fresh) = pending_pos es done l (ground arith) in
          (e, Memᴰ.tail m, at, fresh)
    ]

pub is_end-target :
    (es : List Edge) (u l : ℕ) → contains (targets u es) l ≡ true → is_end es l ≡ true
is_end-target [] u l h = ground arith
is_end-target (e ∷ es) u l h = ground (arith, is_end-target es u l)

pub is_end-from : (es : List Edge) (e : Edge) → Memᴰ e es → is_end es e.from_label ≡ true
is_end-from [] e m = absurd (Memᴰ.not-nil m)
is_end-from (x ∷ es) e m = elim (Memᴰ.cases_cons m) [
  | inl same ↦ ground arith
  | inr later ↦ ground (arith, is_end-from es e later)
]

pub is_end-to : (es : List Edge) (e : Edge) → Memᴰ e es → is_end es e.to_label ≡ true
is_end-to [] e m = absurd (Memᴰ.not-nil m)
is_end-to (x ∷ es) e m = elim (Memᴰ.cases_cons m) [
  | inl same ↦ ground arith
  | inr later ↦ ground (arith, is_end-to es e later)
]

-- The position of a label in a list; the list's length for a label that it does not hold.
abbrev position : ℕ → List ℕ → ℕ
position l [] = 0
position l (x ∷ xs) = let later = position l xs in if x == l then 0 else suc later

contains_of_precedes : (u v : ℕ) (xs : List ℕ) → precedes u v xs ≡ true → contains xs v ≡ true
contains_of_precedes u v [] h = absurd (false≢true h)
contains_of_precedes u v (x ∷ xs) h = ground (arith, contains_of_precedes u v xs)

position-lt :
    (u v : ℕ) (xs : List ℕ)
    → nodup xs ≡ true
    → precedes u v xs ≡ true
    → position u xs < position v xs
position-lt u v [] d h = absurd (false≢true h)
position-lt u v (x ∷ xs) d h =
    ground
      (arith, position-lt u v xs, contains_of_precedes u v xs, nat_same_iff x u, nat_same_iff x v)

-- A topological order ranks the nodes by their positions.
pub order-IsRanking :
    (es : List Edge) (order : List ℕ)
    → IsTopologicalOrder es order
    → IsRanking es (λ l. position l order)
order-IsRanking es order t e m =
    position-lt e.from_label e.to_label order t.distinct (t.sorted_by_edges e m)
