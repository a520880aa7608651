-- ===== src/ServiceMaps/BuildMap.antt =====
-- `buildMap`: the order of the stations of a route, from the set of edges between them.
use transiter.Base.{Bool, nat_keys, string_keys}
use transiter.Base.Maps.{Map, keys}
use transiter.Graph.Sort.{SortResult, sort_basic}
use transiter.Graph.Sort.Correct.{Sorts, sort_basic_correct}
use transiter.Graph.Types.{Edge, edge_keys, new_graph}

-- The stations in order, or the error of `SortBasic`. A range over the set goes through its keys.
unfoldable pub build_map : Map Edge Bool → SortResult
build_map edges_set = sort_basic (new_graph (keys edges_set))

-- `buildMap` ends on every set of edges. It returns each end of an edge once, with the start of
-- every edge before its end, and returns the error only if no such order exists.
pub build_map-Sorts : (edges_set : Map Edge Bool) → Sorts (keys edges_set) (build_map edges_set)
unfolding build_map
build_map-Sorts edges_set = sort_basic_correct (keys edges_set)
