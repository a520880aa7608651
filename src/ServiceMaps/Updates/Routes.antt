-- ===== src/ServiceMaps/Updates/Routes.antt =====
-- One pass of the loop of `UpdateRealtimeMaps` over the routes.
use Prim.Native.String.{String}
use transiter.Base.{
  List, Option, [], contains, inl, inr, nat_keys, refl, some, string_keys, sym, ℕ, ◌≡◌, ◌⊎◌,
}
use transiter.Base.Int.{int_keys, negsuc}
use transiter.Base.Maps.{keys}
use transiter.Graph.Sort.{SortResult, err_graph_not_sortable, out_of_fuel, sorted}
use transiter.Graph.Sort.Correct.{Sorts}
use transiter.Graph.Sort.Topological.{IsTopologicalOrder}
use transiter.Graph.Types.{Edge, edge_keys}
use transiter.ServiceMaps.BuildMap.{build_map, build_map-Sorts}
use transiter.ServiceMaps.RealtimeMaps.{all_stop_pks, build_realtime_map_edges}
use transiter.ServiceMaps.RealtimeMaps.Runs.{
  AreApart, Run, all_rows, get_trip_stop_pks_lem, stops_of_runs,
}
use transiter.ServiceMaps.Types.{GoLib, ServiceMapConfig}
use transiter.ServiceMaps.Updates.{
  UpdateQueries, all_stops_of_trips, persist_sorted, stations_of_rows, update_route_map,
}
use transiter.ServiceMaps.Updates.Links.{
  IsTopologicalOrder-contains, all_links, contains-build_realtime_map_edges,
}
use transiter.ServiceMaps.Updates.Written.{
  MapLaws, Replaces, ServiceMap, is_among, numbered, persist_realtime-Replaces,
}

module _ (lib : GoLib) (unmarshal : String → Option (ServiceMapConfig lib.Float)) {Db : Type 0}
    (q : UpdateQueries Db) (stored : Db → ℕ → ℕ → Option ServiceMap) where
  -- There is an order of the edges, and where the queries succeed it is the map of the route for each
  -- configuration, and other maps stay; or there is no order, and the database stays.
  abbrev pub WritesOrder :
      List (ℕ × ServiceMapConfig lib.Float) → ℕ → Db → List Edge → Option Db → Type 0
  WritesOrder smcs route_pk d es result =
      ((stop_pks : List ℕ) × IsTopologicalOrder es stop_pks
        × ((after : Db)
            → result ≡ some after
            → Replaces stored d after (is_among smcs) route_pk (some (numbered 0 stop_pks))))
      ⊎ ((¬ ((order : List ℕ) × IsTopologicalOrder es order)) × (result ≡ some d))

  module _ (laws : MapLaws q.maps stored) where
    persist_sorted-WritesOrder :
        (smcs : List (ℕ × ServiceMapConfig lib.Float)) (route_pk : ℕ) (d : Db) (es : List Edge)
        (others : List Edge) (same : (e : Edge) → contains es e ≡ contains others e)
        (r : SortResult)
        → Sorts es r
        → WritesOrder smcs route_pk d others (persist_sorted lib unmarshal q smcs route_pk r d)
    persist_sorted-WritesOrder smcs route_pk d es others same (sorted stop_pks) o = inl (
      stop_pks,
      IsTopologicalOrder-contains es others stop_pks same o,
      λ after e. persist_realtime-Replaces lib unmarshal q laws smcs route_pk stop_pks d after e,
    )
    persist_sorted-WritesOrder smcs route_pk d es others same err_graph_not_sortable none_is = inr (
      λ (order, o).
          none_is (order, IsTopologicalOrder-contains others es order (λ e. sym (same e)) o),
      refl,
    )
    persist_sorted-WritesOrder smcs route_pk d es others same out_of_fuel impossible =
        absurd impossible

    -- Where the rows of the trips of a route stand one trip after the other, and the first trip does
    -- not have the primary key -1: if there is an order of the stations with the station of each stop
    -- of a trip before that of its next stop, then such an order, of exactly the stations with a
    -- next or a previous one, becomes the map of the route for each realtime configuration when the
    -- writes succeed, and the other maps stay; if there is none, nothing is written.
    pub update_route_map-WritesOrder :
        (smcs : List (ℕ × ServiceMapConfig lib.Float)) (route_pk : ℕ) (d : Db) (runs : List Run)
        (stations : List (ℕ × ℕ))
        → AreApart (negsuc 0) runs
        → q.list_stop_pks_for_realtime_map d route_pk ≡ some (all_rows runs)
        → q.list_stations d (all_stop_pks (all_stops_of_trips (stops_of_runs runs)) [])
          ≡ some stations
        → WritesOrder smcs route_pk d
            (all_links (stations_of_rows stations []) (stops_of_runs runs))
            (update_route_map lib unmarshal q smcs route_pk d)
    unfolding update_route_map
    update_route_map-WritesOrder smcs route_pk d runs stations apart listed known =
        let trips = stops_of_runs runs in
        let station_map = stations_of_rows stations [] in
        let edges_set = build_realtime_map_edges trips station_map in
        rw (listed, get_trip_stop_pks_lem runs apart, known)
          (persist_sorted-WritesOrder smcs route_pk d (keys edges_set) (all_links station_map trips)
            (contains-build_realtime_map_edges station_map trips) (build_map edges_set)
            (build_map-Sorts edges_set))
