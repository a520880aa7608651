-- ===== src/Graph/Types.antt =====
-- internal/graph/types.go. A node is reached through pointers from other nodes; each label has one
-- node, so a pointer to a node is modelled by the node's label. Labels are primary keys (int64).
pub mod Adjacency
use transiter.Base.{
  Bool, Comparable, List, [], arith, false, foldl, if◌then◌else◌, length, nat_keys, none, not, some,
  string_keys, true, ℕ, ◌&&◌, ◌++◌, ◌==◌, ◌↔◌, ◌∷◌, ◌≡◌,
}
use transiter.Base.Maps.{Map, insert, lookup}

pub record Edge : Type 0 where
  pub from_label : ℕ
  pub to_label : ℕ

pub record GraphNode : Type 0 where
  pub label : ℕ
  pub in_nodes : List ℕ
  pub out_nodes : List ℕ

pub record Graph : Type 0 where
  pub label_to_node : Map ℕ GraphNode

unfoldable pub num_nodes : Graph → ℕ
num_nodes g = length g.label_to_node

-- `if _, ok := g.LabelToNode[label]; !ok { g.LabelToNode[label] = &GraphNode{Label: label} }`
unfoldable pub ensure_node : ℕ → Map ℕ GraphNode → Map ℕ GraphNode
ensure_node l m = elim (lookup l m) [
  | none ↦ insert l (record { label = l; in_nodes = []; out_nodes = [] }) m
  | some n ↦ m
]

-- A write through the pointer that the map holds at a label.
unfoldable pub modify_node : (GraphNode → GraphNode) → ℕ → Map ℕ GraphNode → Map ℕ GraphNode
modify_node f l m = elim (lookup l m) [ none ↦ m | some n ↦ insert l (f n) m ]

abbrev pub append_out : ℕ → GraphNode → GraphNode
append_out l n = record n { out_nodes = n.out_nodes ++ l ∷ [] }

abbrev pub append_in : ℕ → GraphNode → GraphNode
append_in l n = record n { in_nodes = n.in_nodes ++ l ∷ [] }

-- One round of the loop of `NewGraph`.
unfoldable pub add_edge : Map ℕ GraphNode → Edge → Map ℕ GraphNode
unfolding ensure_node modify_node
add_edge m e =
    let both = ensure_node e.to_label (ensure_node e.from_label m) in
    modify_node (append_in e.from_label) e.to_label
      (modify_node (append_out e.to_label) e.from_label both)

unfoldable pub new_graph : List Edge → Graph
unfolding add_edge
new_graph edges = record { label_to_node = foldl add_edge [] edges }

abbrev pub edge_same : Edge → Edge → Bool
edge_same a b = a.from_label == b.from_label && a.to_label == b.to_label

pub edge_same_iff : (a b : Edge) → (edge_same a b ≡ true) ↔ (a ≡ b)
edge_same_iff a b = ground arith

-- `Edge` is a comparable struct, and the key of Go's maps of edges.
instance abbrev pub edge_keys : Comparable Edge
edge_keys = record { same = edge_same; same_iff = edge_same_iff }

-- The loop of `EdgeSetsEqual`; `rhs[edge]` is false at a missing key.
all_in : Map Edge Bool → Map Edge Bool → Bool
all_in [] rhs = true
all_in ((edge, _) ∷ lhs) rhs = elim (lookup edge rhs) [ some true ↦ all_in lhs rhs | _ ↦ false ]

pub edge_sets_equal : Map Edge Bool → Map Edge Bool → Bool
unfolding all_in
edge_sets_equal lhs rhs = if not (length lhs == length rhs) then false else all_in lhs rhs
