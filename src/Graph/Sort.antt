-- ===== src/Graph/Sort.antt =====
-- internal/graph/sort.go: `SortBasic`, a topological sort by in-degrees. A range over the map of
-- nodes goes through the list of its entries, whose order is arbitrary.
pub mod Start
pub mod Relax
pub mod Topological
pub mod Invariant
pub mod Correct
use transiter.Base.{
  List, Option, [], foldl, if◌then◌else◌, length, ltb, nat_keys, none, not, some, string_keys, suc,
  zero, ℕ, ◌++◌, ◌==◌, ◌∷◌,
}
use transiter.Base.Int.{is_zero, pos, pred_ℤ, ℤ}
use transiter.Graph.Types.{Graph, GraphNode, edge_keys, num_nodes}
use transiter.Graph.Types.Adjacency.{outs_in}

-- `sort.Slice` by `<` on labels; the labels are distinct, so any sort gives this list.
abbrev pub insert_label : ℕ → List ℕ → List ℕ
insert_label l [] = l ∷ []
insert_label l (x ∷ xs) = if ltb x l then x ∷ insert_label l xs else l ∷ x ∷ xs

unfoldable pub sort_labels : List ℕ → List ℕ
sort_labels [] = []
sort_labels (x ∷ xs) = insert_label x (sort_labels xs)

-- The map `numInNodes`, with the default 0 of a missing key.
abbrev pub Counts : Type 0
Counts = ℕ → ℤ

abbrev pub write : Counts → ℕ → ℤ → Counts
write counts l n k = if l == k then n else counts k

-- The first loop: the in-degrees and the labels with no edge in.
pub record Scan : Type 0 where
  pub num_in_nodes : Counts
  pub starting_labels : List ℕ

unfoldable pub scan_node : Scan → ℕ × GraphNode → Scan
scan_node s (_, n) =
    let degree = length n.in_nodes in
    record {
      num_in_nodes = write s.num_in_nodes n.label (pos degree);
      starting_labels =
          if degree == 0 then s.starting_labels ++ n.label ∷ [] else s.starting_labels;
    }

unfoldable pub scan_nodes : Graph → Scan
unfolding scan_node
scan_nodes g =
    foldl scan_node (record { num_in_nodes = λ _. pos 0; starting_labels = [] }) g.label_to_node

-- The top of Go's stack, its last element, is the head of the list.
pub record Sorting : Type 0 where
  pub result : List ℕ
  pub stack : List ℕ
  pub num_in_nodes : Counts

abbrev pub push_all : List ℕ → List ℕ → List ℕ
push_all [] stack = stack
push_all (l ∷ ls) stack = push_all ls (l ∷ stack)

unfoldable pub start : Graph → Sorting
unfolding scan_nodes sort_labels
start g =
    let s = scan_nodes g in
    record {
      result = [];
      stack = push_all (sort_labels s.starting_labels) [];
      num_in_nodes = s.num_in_nodes;
    }

-- The inner loop, over the out-nodes of the node that was popped.
unfoldable pub relax_one : Sorting → ℕ → Sorting
relax_one s out =
    let n = pred_ℤ (s.num_in_nodes out) in
    record s {
      num_in_nodes = write s.num_in_nodes out n;
      stack = if is_zero n then out ∷ s.stack else s.stack;
    }

unfoldable pub relax : Sorting → List ℕ → Sorting
unfolding relax_one
relax = foldl relax_one

-- One round of the main loop, after `next` left the stack.
unfoldable pub visit : Graph → Sorting → ℕ → List ℕ → Sorting
unfolding relax
visit g s next rest =
    relax (record s { result = s.result ++ next ∷ []; stack = rest }) (outs_in g.label_to_node next)

-- The main loop; `none` means that the fuel ran out.
unfoldable pub loop : Graph → ℕ → Sorting → Option Sorting
loop g zero s = elim s.stack [ [] ↦ some s | _ ∷ _ ↦ none ]
loop g (suc fuel) s = elim s.stack [ [] ↦ some s | next ∷ rest ↦ loop g fuel (visit g s next rest) ]

pub data SortResult : Type 0 where
  sorted : List ℕ → SortResult
  err_graph_not_sortable : SortResult
  out_of_fuel : SortResult

-- A node enters the stack once, so the number of nodes is fuel enough.
unfoldable pub sort_basic : Graph → SortResult
unfolding start visit loop
sort_basic g = elim (loop g (num_nodes g) (start g)) [
  | none ↦ out_of_fuel
  | some s ↦
      if not (length s.result == num_nodes g) then err_graph_not_sortable else sorted s.result
]
