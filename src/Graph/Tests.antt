-- ===== src/Graph/Tests.antt =====
-- Runs of the functions on the graphs of internal/graph/types_test.go, and the theorems at them.
use transiter.Base.{List, [], nat_keys, refl, string_keys, ℕ, ◌∷◌, ◌≡◌}
use transiter.Base.Int.{int_keys}
use transiter.Base.Maps.{insert, lookup}
use transiter.Graph.Sort.{err_graph_not_sortable, sort_basic, sorted}
use transiter.Graph.Sort.Correct.{Sorts, sort_basic_correct}
use transiter.Graph.Types.{Edge, new_graph, num_nodes}
use transiter.Graph.Types.Adjacency.{Represents, new_graph-Represents}

abbrev edge : ℕ → ℕ → Edge
edge a b = record { from_label = a; to_label = b }

abbrev forking_joining_paths : List Edge
forking_joining_paths = edge 1 2 ∷ edge 2 3 ∷ edge 1 4 ∷ edge 4 3 ∷ []

abbrev two_paths : List Edge
two_paths = edge 1 2 ∷ edge 101 102 ∷ []

sort_forking_joining_paths :
    sort_basic (new_graph forking_joining_paths) ≡ sorted (1 ∷ 4 ∷ 2 ∷ 3 ∷ [])
unfolding sort_basic new_graph num_nodes lookup insert
sort_forking_joining_paths = refl

sort_two_paths : sort_basic (new_graph two_paths) ≡ sorted (101 ∷ 102 ∷ 1 ∷ 2 ∷ [])
unfolding sort_basic new_graph num_nodes lookup insert
sort_two_paths = refl

sort_cycle : sort_basic (new_graph (edge 1 2 ∷ edge 2 1 ∷ [])) ≡ err_graph_not_sortable
unfolding sort_basic new_graph num_nodes lookup insert
sort_cycle = refl

sort_basic_correct_example :
    Sorts forking_joining_paths (sort_basic (new_graph forking_joining_paths))
sort_basic_correct_example = sort_basic_correct forking_joining_paths

new_graph-Represents_example : Represents forking_joining_paths (new_graph forking_joining_paths)
new_graph-Represents_example = new_graph-Represents forking_joining_paths
