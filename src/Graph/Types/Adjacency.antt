-- ===== src/Graph/Types/Adjacency.antt =====
-- What `NewGraph` builds: the nodes of a graph, and their neighbours, in terms of its edges.
use mathlib.Core.List.{append-nil, append_assoc}
use transiter.Base.{
  Bool, List, Option-cases, [], arith, contains, false, foldl, if◌then◌else◌, inl, inr, nat_keys,
  nat_same_iff, nodup, none, refl, some, string_keys, sym, true, ℕ, ◌++◌, ◌==◌, ◌||◌, ◌∙◌, ◌∷◌, ◌≡◌,
}
use transiter.Base.Maps.{
  Map, contains-keys-insert, contains-keys_of_lookup, insert, keys, lookup, lookup-insert,
  nodup-keys-insert,
}
use transiter.Graph.Types.{
  Edge, Graph, GraphNode, add_edge, append_in, append_out, edge_keys, ensure_node, modify_node,
  new_graph,
}

-- The nodes that a node's pointers lead to; none for a label without a node.
abbrev pub outs_in : Map ℕ GraphNode → ℕ → List ℕ
outs_in m l = elim (lookup l m) [ none ↦ [] | some n ↦ n.out_nodes ]

abbrev pub ins_in : Map ℕ GraphNode → ℕ → List ℕ
ins_in m l = elim (lookup l m) [ none ↦ [] | some n ↦ n.in_nodes ]

-- The ends of the edges out of a label, and the starts of the edges into it, in the edges' order.
abbrev pub targets : ℕ → List Edge → List ℕ
targets l [] = []
targets l (e ∷ es) =
    let rest = targets l es in if e.from_label == l then e.to_label ∷ rest else rest

abbrev pub sources : ℕ → List Edge → List ℕ
sources l [] = []
sources l (e ∷ es) =
    let rest = sources l es in if e.to_label == l then e.from_label ∷ rest else rest

abbrev pub is_end : List Edge → ℕ → Bool
is_end [] l = false
is_end (e ∷ es) l = e.from_label == l || e.to_label == l || is_end es l

lookup-ensure_node :
    (k l : ℕ) (m : Map ℕ GraphNode)
    → lookup l (ensure_node k m) ≡ elim (lookup l m) [
      | some n ↦ some n
      | none ↦ if k == l then some (record { label = k; in_nodes = []; out_nodes = [] }) else none
    ]
unfolding ensure_node
lookup-ensure_node k l m =
    ground (arith, lookup-insert k l (record { label = k; in_nodes = []; out_nodes = [] }) m)

lookup-modify_node :
    (f : GraphNode → GraphNode) (k l : ℕ) (m : Map ℕ GraphNode)
    → lookup l (modify_node f k m)
      ≡ elim (lookup l m) [ some n ↦ if k == l then some (f n) else some n | none ↦ none ]
unfolding modify_node
lookup-modify_node f k l m = elim (Option-cases (lookup k m)) [
  | inl missing ↦ ground (arith, nat_same_iff k l)
  | inr (n, e) ↦ ground (arith, lookup-insert k l (f n) m, nat_same_iff k l)
]

outs_in-add_edge :
    (m : Map ℕ GraphNode) (e : Edge) (l : ℕ)
    → outs_in (add_edge m e) l ≡ outs_in m l ++ (if e.from_label == l then e.to_label ∷ [] else [])
unfolding add_edge
outs_in-add_edge m e l =
    let m1 = ensure_node e.from_label m in
    let m2 = ensure_node e.to_label m1 in
    let m3 = modify_node (append_out e.to_label) e.from_label m2 in
    ground (
      arith,
      lookup-modify_node (append_in e.from_label) e.to_label l m3,
      lookup-modify_node (append_out e.to_label) e.from_label l m2,
      lookup-ensure_node e.to_label l m1,
      lookup-ensure_node e.from_label l m,
      append-nil (outs_in m l),
    )

ins_in-add_edge :
    (m : Map ℕ GraphNode) (e : Edge) (l : ℕ)
    → ins_in (add_edge m e) l ≡ ins_in m l ++ (if e.to_label == l then e.from_label ∷ [] else [])
unfolding add_edge
ins_in-add_edge m e l =
    let m1 = ensure_node e.from_label m in
    let m2 = ensure_node e.to_label m1 in
    let m3 = modify_node (append_out e.to_label) e.from_label m2 in
    ground (
      arith,
      lookup-modify_node (append_in e.from_label) e.to_label l m3,
      lookup-modify_node (append_out e.to_label) e.from_label l m2,
      lookup-ensure_node e.to_label l m1,
      lookup-ensure_node e.from_label l m,
      append-nil (ins_in m l),
    )

-- Every node of the map is stored at its own label, and a label has one entry.
pub record IsIndexed (m : Map ℕ GraphNode) : Type 0 where
  pub distinct : nodup (keys m) ≡ true
  pub labelled : (l : ℕ) (n : GraphNode) → lookup l m ≡ some n → n.label ≡ l

insert-IsIndexed :
    (l : ℕ) (n : GraphNode) (m : Map ℕ GraphNode)
    → n.label ≡ l
    → IsIndexed m
    → IsIndexed (insert l n m)
insert-IsIndexed l n m e h = record {
  distinct = nodup-keys-insert l n m h.distinct;
  labelled = λ j k q. ground (arith, lookup-insert l j n m, h.labelled j k, nat_same_iff l j);
}

ensure_node-IsIndexed : (l : ℕ) (m : Map ℕ GraphNode) → IsIndexed m → IsIndexed (ensure_node l m)
unfolding ensure_node
ensure_node-IsIndexed l m h = elim (Option-cases (lookup l m)) [
  | inl missing ↦ rw (missing, ensure_node) (insert-IsIndexed l _ m refl h)
  | inr (n, found) ↦ rw (found, ensure_node) h
]

modify_node-IsIndexed :
    (f : GraphNode → GraphNode) (l : ℕ) (m : Map ℕ GraphNode)
    → ((n : GraphNode) → (f n).label ≡ n.label)
    → IsIndexed m
    → IsIndexed (modify_node f l m)
unfolding modify_node
modify_node-IsIndexed f l m keep h = elim (Option-cases (lookup l m)) [
  | inl missing ↦ rw (missing, modify_node) h
  | inr (n, found) ↦
      rw (found, modify_node) (insert-IsIndexed l (f n) m (keep n ∙ h.labelled l n found) h)
]

add_edge-IsIndexed : (m : Map ℕ GraphNode) (e : Edge) → IsIndexed m → IsIndexed (add_edge m e)
unfolding add_edge
add_edge-IsIndexed m e h =
    modify_node-IsIndexed (append_in e.from_label) e.to_label _ (λ n. refl)
      (modify_node-IsIndexed (append_out e.to_label) e.from_label _ (λ n. refl)
        (ensure_node-IsIndexed e.to_label _ (ensure_node-IsIndexed e.from_label m h)))

contains-keys-ensure_node :
    (k l : ℕ) (m : Map ℕ GraphNode)
    → contains (keys (ensure_node k m)) l ≡ (k == l || contains (keys m) l)
unfolding ensure_node
contains-keys-ensure_node k l m = elim (Option-cases (lookup k m)) [
  | inl missing ↦ rw (missing, ensure_node) (contains-keys-insert k l _ m)
  | inr (n, found) ↦
      rw (found, ensure_node) (ground (arith, contains-keys_of_lookup k m found, nat_same_iff k l))
]

contains-keys-modify_node :
    (f : GraphNode → GraphNode) (k l : ℕ) (m : Map ℕ GraphNode)
    → contains (keys (modify_node f k m)) l ≡ contains (keys m) l
unfolding modify_node
contains-keys-modify_node f k l m = elim (Option-cases (lookup k m)) [
  | inl missing ↦ rw (missing, modify_node)
  | inr (n, found) ↦
      rw (found, modify_node)
        (ground (
          arith,
          contains-keys-insert k l (f n) m,
          contains-keys_of_lookup k m found,
          nat_same_iff k l,
        ))
]

contains-keys-add_edge :
    (m : Map ℕ GraphNode) (e : Edge) (l : ℕ)
    → contains (keys (add_edge m e)) l
      ≡ (e.from_label == l || e.to_label == l || contains (keys m) l)
unfolding add_edge
contains-keys-add_edge m e l =
    let m1 = ensure_node e.from_label m in
    let m2 = ensure_node e.to_label m1 in
    let m3 = modify_node (append_out e.to_label) e.from_label m2 in
    ground (
      arith,
      contains-keys-modify_node (append_in e.from_label) e.to_label l m3,
      contains-keys-modify_node (append_out e.to_label) e.from_label l m2,
      contains-keys-ensure_node e.to_label l m1,
      contains-keys-ensure_node e.from_label l m,
    )

outs_in-foldl :
    (m : Map ℕ GraphNode) (es : List Edge) (l : ℕ)
    → outs_in (foldl add_edge m es) l ≡ outs_in m l ++ targets l es
outs_in-foldl m [] l = sym (append-nil _)
outs_in-foldl m (e ∷ es) l =
    rw (outs_in-foldl (add_edge m e) es l, outs_in-add_edge m e l, append_assoc) (ground arith)

ins_in-foldl :
    (m : Map ℕ GraphNode) (es : List Edge) (l : ℕ)
    → ins_in (foldl add_edge m es) l ≡ ins_in m l ++ sources l es
ins_in-foldl m [] l = sym (append-nil _)
ins_in-foldl m (e ∷ es) l =
    rw (ins_in-foldl (add_edge m e) es l, ins_in-add_edge m e l, append_assoc) (ground arith)

contains-keys-foldl :
    (m : Map ℕ GraphNode) (es : List Edge) (l : ℕ)
    → contains (keys (foldl add_edge m es)) l ≡ (contains (keys m) l || is_end es l)
contains-keys-foldl m [] l = ground arith
contains-keys-foldl m (e ∷ es) l =
    ground (arith, contains-keys-foldl (add_edge m e) es l, contains-keys-add_edge m e l)

foldl-IsIndexed :
    (m : Map ℕ GraphNode) (es : List Edge) → IsIndexed m → IsIndexed (foldl add_edge m es)
foldl-IsIndexed m [] h = h
foldl-IsIndexed m (e ∷ es) h = foldl-IsIndexed (add_edge m e) es (add_edge-IsIndexed m e h)

-- A graph that holds exactly the given edges: a node for each end of an edge, stored once at its
-- label, and the neighbours of a node in the order of the edges, with their multiplicities.
pub record Represents (es : List Edge) (g : Graph) : Type 0 where
  pub indexed : IsIndexed g.label_to_node
  pub nodes : (l : ℕ) → contains (keys g.label_to_node) l ≡ is_end es l
  pub outs : (l : ℕ) → outs_in g.label_to_node l ≡ targets l es
  pub ins : (l : ℕ) → ins_in g.label_to_node l ≡ sources l es

pub new_graph-Represents : (es : List Edge) → Represents es (new_graph es)
unfolding new_graph
new_graph-Represents es = record {
  indexed =
      foldl-IsIndexed [] es (record { distinct = refl; labelled = λ l n q. unfold lookup in cc });
  nodes = λ l. contains-keys-foldl [] es l;
  outs = λ l. unfold lookup in outs_in-foldl [] es l;
  ins = λ l. unfold lookup in ins_in-foldl [] es l;
}
