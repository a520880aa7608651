-- ===== src/Graph/Sort/Start.antt =====
-- The first loop of `SortBasic` and the sort of the starting labels.
use mathlib.Core.Bool.{false≢true}
use transiter.Base.{
  Bool, List, Option, [], arith, contains, contains-append, false, foldl, length, nat_keys,
  nat_same_iff, nodup, nodup-snoc, none, not, refl, some, string_keys, true, ℕ, ◌&&◌, ◌==◌, ◌||◌,
  ◌∙◌, ◌∷◌, ◌≡◌,
}
use transiter.Base.Int.{pos, ℤ}
use transiter.Base.Maps.{Map, contains-keys, contains-keys_of_lookup, keys, lookup, lookup_missing}
use transiter.Graph.Sort.{
  Counts, Scan, insert_label, push_all, scan_node, scan_nodes, sort_labels, start,
}
use transiter.Graph.Types.{Graph, GraphNode, edge_keys}
use transiter.Graph.Types.Adjacency.{IsIndexed, ins_in}

contains-insert_label :
    (l v : ℕ) (xs : List ℕ) → contains (insert_label l xs) v ≡ (l == v || contains xs v)
contains-insert_label l v [] = refl
contains-insert_label l v (x ∷ xs) = ground (arith, contains-insert_label l v xs)

nodup-insert_label :
    (l : ℕ) (xs : List ℕ) → nodup (insert_label l xs) ≡ (not (contains xs l) && nodup xs)
nodup-insert_label l [] = refl
nodup-insert_label l (x ∷ xs) =
    ground (arith, nodup-insert_label l xs, contains-insert_label l x xs)

pub contains-sort_labels : (v : ℕ) (xs : List ℕ) → contains (sort_labels xs) v ≡ contains xs v
unfolding sort_labels
contains-sort_labels v [] = refl
contains-sort_labels v (x ∷ xs) =
    ground (arith, contains-sort_labels v xs, contains-insert_label x v (sort_labels xs))

pub nodup-sort_labels : (xs : List ℕ) → nodup (sort_labels xs) ≡ nodup xs
unfolding sort_labels
nodup-sort_labels [] = refl
nodup-sort_labels (x ∷ xs) =
    ground (
      arith,
      nodup-sort_labels xs,
      contains-sort_labels x xs,
      nodup-insert_label x (sort_labels xs),
    )

pub contains-push_all :
    (v : ℕ) (ls stack : List ℕ)
    → contains (push_all ls stack) v ≡ (contains ls v || contains stack v)
contains-push_all v [] stack = refl
contains-push_all v (l ∷ ls) stack = ground (arith, contains-push_all v ls (l ∷ stack))

pub nodup-push_all :
    (ls stack : List ℕ)
    → nodup ls ≡ true
    → nodup stack ≡ true
    → ((v : ℕ) → contains ls v ≡ true → contains stack v ≡ false)
    → nodup (push_all ls stack) ≡ true
nodup-push_all [] stack d e apart = e
nodup-push_all (l ∷ ls) stack d e apart =
    nodup-push_all ls (l ∷ stack) (ground arith) (ground (arith, apart l))
      (λ v m. ground (arith, apart v))

-- The in-degree that the first loop leaves at a label.
abbrev degree : Counts → Option GraphNode → ℕ → ℤ
degree counts none v = counts v
degree counts (some n) v = pos (length n.in_nodes)

abbrev is_starting : Option GraphNode → Bool
is_starting none = false
is_starting (some n) = length n.in_nodes == 0

tail-IsIndexed :
    (k : ℕ) (n : GraphNode) (m : Map ℕ GraphNode) → IsIndexed ((k, n) ∷ m) → IsIndexed m
unfolding lookup
tail-IsIndexed k n m h = record {
  distinct = ground (arith, h.distinct);
  labelled = λ l x q.
      ground (arith, h.labelled l x, h.distinct, contains-keys_of_lookup l m q, nat_same_iff k l);
}

module _ (v : ℕ) where
  num_in_nodes-scan :
      (s : Scan) (m : Map ℕ GraphNode)
      → IsIndexed m
      → (foldl scan_node s m).num_in_nodes v ≡ degree s.num_in_nodes (lookup v m) v
  unfolding scan_node lookup
  num_in_nodes-scan s [] h = refl
  num_in_nodes-scan s ((k, n) ∷ m) h =
      num_in_nodes-scan (scan_node s (k, n)) m (tail-IsIndexed k n m h)
      ∙ ground (arith, h.labelled k n, h.distinct, lookup_missing v m, nat_same_iff k v)

  contains-scan :
      (s : Scan) (m : Map ℕ GraphNode)
      → IsIndexed m
      → contains (foldl scan_node s m).starting_labels v
        ≡ (contains s.starting_labels v || is_starting (lookup v m))
  unfolding scan_node lookup
  contains-scan s [] h = ground arith
  contains-scan s ((k, n) ∷ m) h =
      contains-scan (scan_node s (k, n)) m (tail-IsIndexed k n m h)
      ∙ ground (
        arith,
        contains-append s.starting_labels (n.label ∷ []) v,
        h.labelled k n,
        h.distinct,
        lookup_missing v m,
        nat_same_iff k v,
      )

nodup-scan :
    (s : Scan) (m : Map ℕ GraphNode)
    → IsIndexed m
    → nodup s.starting_labels ≡ true
    → ((v : ℕ) → contains s.starting_labels v ≡ true → contains (keys m) v ≡ false)
    → nodup (foldl scan_node s m).starting_labels ≡ true
unfolding scan_node lookup
nodup-scan s [] h d apart = d
nodup-scan s ((k, n) ∷ m) h d apart =
    nodup-scan (scan_node s (k, n)) m (tail-IsIndexed k n m h)
      (ground (arith, nodup-snoc s.starting_labels n.label, apart n.label, h.labelled k n))
      (λ v q. ground (
        arith,
        apart v,
        contains-append s.starting_labels (n.label ∷ []) v,
        h.labelled k n,
        h.distinct,
        nat_same_iff k v,
      ))

-- The state before the first loop.
abbrev empty : Scan
empty = record { num_in_nodes = λ _. pos 0; starting_labels = [] }

-- The state in which the main loop starts.
module _ (g : Graph) (h : IsIndexed g.label_to_node) where
  pub num_in_nodes-start :
      (v : ℕ) → (start g).num_in_nodes v ≡ pos (length (ins_in g.label_to_node v))
  unfolding start
  num_in_nodes-start v = num_in_nodes-scan v _ g.label_to_node h ∙ ground arith

  pub contains-stack-start :
      (v : ℕ)
      → contains (start g).stack v
        ≡ (contains (keys g.label_to_node) v && length (ins_in g.label_to_node v) == 0)
  unfolding start
  contains-stack-start v =
      let labels = (scan_nodes g).starting_labels in
      ground (
        arith,
        contains-push_all v (sort_labels labels) [],
        contains-sort_labels v labels,
        contains-scan v empty g.label_to_node h,
        lookup_missing v g.label_to_node,
        contains-keys v g.label_to_node,
      )

  pub nodup-stack-start : nodup (start g).stack ≡ true
  unfolding start
  nodup-stack-start =
      nodup-push_all (sort_labels (scan_nodes g).starting_labels) []
        (nodup-sort_labels (scan_nodes g).starting_labels
          ∙ nodup-scan empty g.label_to_node h refl (λ v q. absurd (false≢true q)))
        refl (λ v q. refl)
