-- ===== src/Public/Stops/RawData.antt =====
-- getRawStopData of internal/public/endpoints/stop.go, with the maps of
-- internal/db/dbwrappers/dbwrappers.go that it reads.
use transiter.Base.{
  Bool, List, [], contains, if◌then◌else◌, map, nat_keys, none, some, string_keys, ℕ, ◌++◌, ◌∷◌,
}
use transiter.Base.Int.{int_keys}
use transiter.Base.Maps.{Map, insert, lookup}
use transiter.Public.Reference.{PublicLibrary}
use transiter.Public.Results.{Queried, Response, and_then, of_query, reply}
use transiter.Public.Stops.{DbStop, RawStopData, Skip, StopQueries}
use transiter.ServiceMaps.Reverse.{set}

-- `m[pk] = true` on a map that is used as a set.
unfoldable pub add_pk : ℕ → List ℕ → List ℕ
add_pk pk pks = if contains pks pk then pks else pks ++ pk ∷ []

unfoldable pub add_pks : List ℕ → List ℕ → List ℕ
unfolding add_pk
add_pks [] pks = pks
add_pks (q ∷ qs) pks = add_pks qs (add_pk q pks)

abbrev pub list_at {ℓ} : {V : Type ℓ} → ℕ → Map ℕ (List V) → List V
list_at key m = elim (lookup key m) [ none ↦ [] | some values ↦ values ]

-- `m[key] = append(m[key], value)`
unfoldable pub append_at {ℓ} : {V : Type ℓ} → ℕ → V → Map ℕ (List V) → Map ℕ (List V)
append_at key value m = insert key (list_at key m ++ value ∷ []) m

-- MapStopPkToChildPks
unfoldable pub children_of_rows : List (ℕ × ℕ) → Map ℕ (List ℕ) → Map ℕ (List ℕ)
unfolding append_at
children_of_rows [] m = m
children_of_rows ((parent, child) ∷ rest) m = children_of_rows rest (append_at parent child m)

-- MapStopPkToDescendentPks
unfoldable pub descendents_of_rows : List (ℕ × ℕ) → Map ℕ (List ℕ) → Map ℕ (List ℕ)
unfolding add_pk
descendents_of_rows [] m = m
descendents_of_rows ((root, descendent) ∷ rest) m =
    descendents_of_rows rest (insert root (add_pk descendent (list_at root m)) m)

-- The keys of all the sets.
unfoldable pub union_pks : Map ℕ (List ℕ) → List ℕ → List ℕ
unfolding add_pks
union_pks [] pks = pks
union_pks ((k, set) ∷ m) pks = union_pks m (add_pks set pks)

unfoldable pub root_pks : {R : Type 0} → List (DbStop R) → List ℕ
root_pks [] = []
root_pks (s ∷ stops) =
    let rest = root_pks stops in elim s.parent_stop_pk [ none ↦ s.pk ∷ rest | some _ ↦ rest ]

unfoldable pub parent_pks : {R : Type 0} → List (DbStop R) → List ℕ
parent_pks [] = []
parent_pks (s ∷ stops) =
    let rest = parent_pks stops in elim s.parent_stop_pk [ none ↦ rest | some pk ↦ pk ∷ rest ]

-- A query that a request can skip.
abbrev pub unless_skipped {ℓ} : {A : Type ℓ} → Bool → Queried (List A) → Response (List A)
unless_skipped skip query = if skip then reply [] else of_query query

module _ {lib : PublicLibrary} {R : Type 0} (q : StopQueries lib R) (now : lib.Time) where
  -- The rows that are read, in the order of the queries, and an error at the first that fails.
  unfoldable pub get_raw_stop_data : List (DbStop R) → Skip → Response (RawStopData lib.Time)
  unfolding children_of_rows descendents_of_rows union_pks add_pks root_pks parent_pks
  get_raw_stop_data stops skip =
      let stop_pks = map (λ s. s.pk) stops in
      let roots = root_pks stops in
      and_then (of_query (q.child_pks stop_pks)) (λ child_rows.
        and_then (of_query (q.descendent_pks stop_pks)) (λ descendent_rows.
          let descendents = descendents_of_rows descendent_rows [] in
          let all_descendents = union_pks descendents [] in
          and_then (unless_skipped skip.transfers (q.transfers_from_stops all_descendents))
            (λ transfers.
              and_then (unless_skipped skip.alerts (q.active_alerts_for_stops all_descendents now))
                (λ alerts.
                  and_then (unless_skipped skip.stop_times (q.stop_times_by_stops all_descendents))
                    (λ stop_times.
                      let trip_pks = add_pks (map (λ t. t.trip_pk) stop_times) [] in
                      and_then (unless_skipped skip.stop_times (q.destinations_for_trips trip_pks))
                        (λ destinations.
                          and_then
                            (unless_skipped skip.service_maps (q.service_maps_for_stops roots))
                            (λ service_maps.
                              and_then
                                (unless_skipped skip.service_maps (q.config_ids_for_stops roots))
                                (λ config_ids.
                                  and_then (of_query (q.headsign_rules_for_stops all_descendents))
                                    (λ rules.
                                      let stops_read =
                                        add_pks (map (λ d. d.destination_pk) destinations) (
                                          add_pks (parent_pks stops) (
                                            add_pks (map (λ t. t.to_stop_pk) transfers)
                                              all_descendents)) in
                                      and_then (of_query (q.stops_by_pk stops_read)) (λ all_stops.
                                        let routes_read =
                                          add_pks (map (λ t. t.route_pk) stop_times)
                                            (add_pks (map (λ m. m.route_pk) service_maps) []) in
                                        and_then (of_query (q.routes_by_pk routes_read))
                                          (λ all_routes. reply (record {
                                            stop_pk_to_descendent_pks = descendents;
                                            transfers = transfers;
                                            alerts = alerts;
                                            stop_times = stop_times;
                                            trip_destinations = destinations;
                                            service_maps = service_maps;
                                            service_map_config_ids = config_ids;
                                            headsign_rules = rules;
                                            all_stops = all_stops;
                                            all_routes = all_routes;
                                            stop_pk_to_child_pks = children_of_rows child_rows [];
                                          }))))))))))))
