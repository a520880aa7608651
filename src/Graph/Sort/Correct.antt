-- ===== src/Graph/Sort/Correct.antt =====
-- `SortBasic` on the graph that `NewGraph` builds: it ends, its result is a topological order, and
-- it fails only on edges with a cycle.
use mathlib.Core.Bool.{false≢true}
use transiter.Base.{
  Bool-cases, List, List-cases, [], ap, arith, contains, contains-append, false, if◌then◌else◌, inl,
  inr, length, length-append, length-le_of_nodup, nat_keys, nat_same_iff, nodup, not, refl, some,
  string_keys, suc, sym, true, zero, ℕ, ◌&&◌, ◌++◌, ◌+◌, ◌<◌, ◌==◌, ◌∙◌, ◌∷◌, ◌≡◌, ◌≤◌,
}
use transiter.Base.Maps.{Map, keys}
use transiter.Graph.Sort.{
  SortResult, Sorting, err_graph_not_sortable, loop, out_of_fuel, sort_basic, sorted, start, visit,
}
use transiter.Graph.Sort.Invariant.{Inv, result-visit, start-Inv, visit-Inv}
use transiter.Graph.Sort.Topological.{
  IsRanking, IsTopologicalOrder, is_end-from, is_end-to, order-IsRanking, pending, pending_pos,
}
use transiter.Graph.Types.{Edge, Graph, GraphNode, edge_keys, new_graph, num_nodes}
use transiter.Graph.Types.Adjacency.{Represents, is_end, new_graph-Represents}

-- With as much fuel as there are nodes not yet in the result, the main loop ends at an empty stack.
module _ (es : List Edge) (g : Graph) (r : Represents es g) where
  result-nodes :
      (s : Sorting) (v : ℕ)
      → Inv es g r s
      → contains (s.result ++ s.stack) v ≡ true
      → contains (keys g.label_to_node) v ≡ true
  result-nodes s v h m = ground (arith, contains-append s.result s.stack v, h.ready v, r.nodes v)

  nodup-append :
      (xs ys : List ℕ)
      → nodup xs ≡ true
      → nodup ys ≡ true
      → ((v : ℕ) → contains ys v ≡ true → contains xs v ≡ false)
      → nodup (xs ++ ys) ≡ true
  nodup-append [] ys d e apart = e
  nodup-append (x ∷ xs) ys d e apart = ground (
    arith,
    nodup-append xs ys (ground arith) e (λ v m. ground (arith, apart v)),
    contains-append xs ys x,
    apart x,
  )

  -- The result and the stack together are never longer than the list of nodes.
  size_le :
      (s : Sorting)
      → Inv es g r s
      → length s.result + length s.stack ≤ length (keys g.label_to_node)
  size_le s h = omega (
    arith,
    length-append s.result s.stack,
    length-le_of_nodup (s.result ++ s.stack) (keys g.label_to_node)
        (nodup-append s.result s.stack h.distinct h.distinct_stack h.apart)
        (λ v. result-nodes s v h),
  )

  loop_ends :
      (fuel : ℕ) (s : Sorting)
      → Inv es g r s
      → length (keys g.label_to_node) ≤ fuel + length s.result
      → (t : Sorting) × (loop g fuel s ≡ some t) × Inv es g r t × (t.stack ≡ [])
  unfolding loop
  loop_ends zero s h enough = elim (List-cases s.stack) [
    | inl empty ↦ (s, simp (empty, loop), h, empty)
    | inr (next, rest, top) ↦ absurd (omega (arith, size_le s h, ap length top))
  ]
  loop_ends (suc fuel) s h enough = elim (List-cases s.stack) [
    | inl empty ↦ (s, simp (empty, loop), h, empty)
    | inr (next, rest, top) ↦
        let longer = ap length (result-visit es g r s next rest top h) in
        let (t, ends, inv, done) =
          loop_ends fuel (visit g s next rest) (visit-Inv es g r s next rest top h)
            (omega (arith, longer, length-append s.result (next ∷ []))) in
        (t, simp (top, loop) ends, inv, done)
  ]

  module _ (t : Sorting) (h : Inv es g r t) (done : t.stack ≡ []) where
    nodes_of_result : (v : ℕ) → contains t.result v ≡ (is_end es v && pending es t.result v == 0)
    nodes_of_result v = ground (arith, h.ready v, ap (λ xs. contains xs v) done)

    complete-of_length :
        length t.result ≡ length (keys g.label_to_node)
        → (v : ℕ) → contains t.result v ≡ is_end es v
    complete-of_length full v = elim (Bool-cases (contains t.result v)) [
      | inl here ↦ ground (arith, nodes_of_result v)
      | inr gone ↦ elim (Bool-cases (is_end es v)) [
        | inl node ↦ absurd (
            omega (
              arith,
              length-le_of_nodup (v ∷ t.result) (keys g.label_to_node) (ground (arith, h.distinct))
                  (λ a m.
                    ground (arith, nodes_of_result a, r.nodes a, r.nodes v, nat_same_iff v a)),
            ))
        | inr other ↦ rw (gone, other)
      ]
    ]

    IsTopologicalOrder-result :
        length t.result ≡ length (keys g.label_to_node) → IsTopologicalOrder es t.result
    IsTopologicalOrder-result full = record {
      distinct = h.distinct;
      complete = complete-of_length full;
      sorted_by_edges =
          λ e m. h.ordered e m (complete-of_length full e.to_label ∙ is_end-to es e m);
    }

    -- Under a ranking, no node is left out: one of least rank would have no pending edge.
    all_reached :
        (rank : ℕ → ℕ)
        → IsRanking es rank
        → (k v : ℕ) → rank v < k
        → is_end es v ≡ true
        → contains t.result v ≡ true
    all_reached rank grows zero v below node = absurd (omega arith)
    all_reached rank grows (suc k) v below node = elim (Bool-cases (contains t.result v)) [
      | inl here ↦ here
      | inr gone ↦
          let (e, m, at, fresh) = pending_pos es t.result v (ground (arith, nodes_of_result v)) in
          let lower : rank e.from_label < k = omega (arith, grows e m, ap rank at) in
          absurd (
            false≢true
              (sym fresh ∙ all_reached rank grows k e.from_label lower (is_end-from es e m)))
    ]

    length-result_of_ranking :
        (rank : ℕ → ℕ) → IsRanking es rank → length t.result ≡ length (keys g.label_to_node)
    length-result_of_ranking rank grows = omega (
      arith,
      size_le t h,
      length-le_of_nodup (keys g.label_to_node) t.result r.indexed.distinct
          (λ v m. all_reached rank grows (suc (rank v)) v (omega arith) (sym (r.nodes v) ∙ m)),
    )

length-keys : (m : Map ℕ GraphNode) → length (keys m) ≡ length m
length-keys [] = refl
length-keys ((k, n) ∷ m) = ap suc (length-keys m)

sort_basic_ends :
    (es : List Edge)
    → (t : Sorting) × (sort_basic (new_graph es) ≡ (
        if not (length t.result == length (keys (new_graph es).label_to_node))
        then err_graph_not_sortable
        else sorted t.result))
      × Inv es (new_graph es) (new_graph-Represents es) t
      × (t.stack ≡ [])
unfolding sort_basic num_nodes
sort_basic_ends es =
    let g = new_graph es in
    let r = new_graph-Represents es in
    let same = length-keys g.label_to_node in
    let (t, ends, h, done) =
      loop_ends es g r (num_nodes g) (start g) (start-Inv es g r) (omega (arith, same)) in
    (t, ground (arith, ends, same), h, done)

-- A result is a topological order; an error means that there is none.
abbrev pub Sorts : List Edge → SortResult → Type 0
Sorts es (sorted order) = IsTopologicalOrder es order
Sorts es err_graph_not_sortable = ¬ ((order : List ℕ) × IsTopologicalOrder es order)
Sorts es out_of_fuel = ⊥

-- On every list of edges `SortBasic` ends on the graph that `NewGraph` builds. A list that it
-- returns holds each node once, and the start of each edge before its end; it returns the error
-- only where no such list exists.
pub sort_basic_correct : (es : List Edge) → Sorts es (sort_basic (new_graph es))
sort_basic_correct es =
    let g = new_graph es in
    let r = new_graph-Represents es in
    let (t, ends, h, done) = sort_basic_ends es in
    elim (Bool-cases (length t.result == length (keys g.label_to_node))) [
      | inl full ↦ rw (ends, full) (IsTopologicalOrder-result es g r t h done (ground arith))
      | inr less ↦
          rw (ends, less)
            (λ (order, o).
              let ranking = order-IsRanking es order o in
              absurd (ground (arith, length-result_of_ranking es g r t h done _ ranking)))
    ]
