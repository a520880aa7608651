-- ===== src/Public/Stops/Total.antt =====
-- buildStopsResponse of internal/public/endpoints/stop.go on a consistent database.
use Prim.Native.String.{String}
use transiter.Base.{
  Bool, List, Option, Option-cases, [], ap, arith, contains, inl, inr, map, nat_keys, refl,
  string_keys, true, ℕ, ◌++◌, ◌||◌, ◌∷◌, ◌≡◌,
}
use transiter.Base.Int.{int_keys}
use transiter.Base.Maps.{
  Map, contains-keys, contains-keys-insert, insert, keys, lookup, lookup_of_contains-keys,
}
use transiter.Public.Reference.{
  Generator, PublicLibrary, RouteReference, StopReference, route_reference, trip_reference,
}
use transiter.Public.Results.{found, reply}
use transiter.Public.Stops.{
  DbStop, RouteByPkRow, Skip, StopConfigRow, StopQueries, StopServiceMapRow, StopTimeByStopRow,
}
use transiter.Public.Stops.Build.{
  StopMaps, add_service_maps, all_service_maps, api_stop, build_stops_response, empty_service_maps,
  inner_map, routes_in, stop_pk_to_api_service_maps,
}
use transiter.Public.Stops.Consistent.{
  Consistent, both_true, every, every_of, get_raw_stop_data-total,
}
use transiter.Public.Stops.RawData.{append_at}
use transiter.Public.Stops.Response.{
  ApiStop, ApiStopTime, api_stop_time, destinations_of_rows, group_stop_times, lift_to_ancestors,
  route_previews, stop_pk_to_api_alerts, stop_pk_to_api_headsign_rules, stop_pk_to_api_stop_times,
  stop_pk_to_api_transfers, stop_previews,
}

add_service_maps-total :
    (rs : List StopServiceMapRow) (m : Map ℕ (Map String (List ℕ)))
    → every (λ r. contains (keys m) r.stop_pk) rs ≡ true
    → (a : Map ℕ (Map String (List ℕ))) × (add_service_maps rs m ≡ reply a)
unfolding add_service_maps
add_service_maps-total [] m h = (m, refl)
add_service_maps-total (r ∷ rs) m h =
    let (here, later) = both_true _ _ h in
    let (inner, found) = lookup_of_contains-keys r.stop_pk m here in
    let inner_grown = insert r.config_id (routes_in r.config_id inner ++ r.route_pk ∷ []) inner in
    let (a, finished) = add_service_maps-total rs (insert r.stop_pk inner_grown m) (
      every_of (λ r. contains (keys m) r.stop_pk) _ rs
        (λ s known. ground (arith, known, contains-keys-insert r.stop_pk s.stop_pk inner_grown m))
        later) in
    (a, rw (found, add_service_maps) finished)

keys-empty_service_maps :
    (rs : List StopConfigRow) (m : Map ℕ (Map String (List ℕ))) (pk : ℕ)
    → (contains (map (λ c. c.pk) rs) pk || contains (keys m) pk) ≡ true
    → contains (keys (empty_service_maps rs m)) pk ≡ true
unfolding empty_service_maps
keys-empty_service_maps [] m pk h = h
keys-empty_service_maps (r ∷ rs) m pk h =
    let grown = insert r.id [] (inner_map r.pk m) in
    keys-empty_service_maps rs (insert r.pk grown m) pk
      (ground (arith, h, contains-keys-insert r.pk pk grown m))

module _ (lib : PublicLibrary) (g : Generator) (system_id : String) where
  keys-route_previews :
      (rs : List RouteByPkRow) (m : Map ℕ RouteReference) (pk : ℕ)
      → (contains (map (λ r. r.pk) rs) pk || contains (keys m) pk) ≡ true
      → contains (keys (route_previews lib g system_id rs m)) pk ≡ true
  unfolding route_previews
  keys-route_previews [] m pk h = h
  keys-route_previews (r ∷ rs) m pk h =
      let preview = route_reference lib g r.id system_id r.color in
      keys-route_previews rs (insert r.pk preview m) pk
        (ground (arith, h, contains-keys-insert r.pk pk preview m))

  api_stop_time-total :
      (routes : Map ℕ RouteReference) (previews : Map ℕ StopReference)
      (destinations : Map ℕ (Option StopReference)) (t : StopTimeByStopRow lib.Time)
      → contains (keys routes) t.route_pk ≡ true
      → (item : ApiStopTime) × (api_stop_time lib g system_id routes previews destinations t
          ≡ reply item)
  unfolding api_stop_time trip_reference
  api_stop_time-total routes previews destinations t h =
      elim (Option-cases (lookup t.route_pk routes)) [
        | inl missing ↦ absurd (ground (arith, h, missing, contains-keys t.route_pk routes))
        | inr (route, found) ↦ rw found (_, refl)
      ]

  group_stop_times-total :
      (routes : Map ℕ RouteReference) (previews : Map ℕ StopReference)
      (destinations : Map ℕ (Option StopReference)) (rs : List (StopTimeByStopRow lib.Time))
      (m : Map ℕ (List ApiStopTime))
      → every (λ t. contains (keys routes) t.route_pk) rs ≡ true
      → (a : Map ℕ (List ApiStopTime)) × (group_stop_times lib g system_id routes previews
            destinations rs m
          ≡ reply a)
  unfolding group_stop_times
  group_stop_times-total routes previews destinations [] m h = (m, refl)
  group_stop_times-total routes previews destinations (t ∷ rs) m h =
      let (here, later) = both_true _ _ h in
      let (item, built) = api_stop_time-total routes previews destinations t here in
      let (a, finished) =
        group_stop_times-total routes previews destinations rs (append_at t.stop_pk item m) later in
      (a, rw (built, group_stop_times) finished)

  map-api_stop :
      {R : Type 0} (m : StopMaps) (stops : List (DbStop R))
      → map (λ s. s.id) (map (api_stop lib g system_id m) stops) ≡ map (λ s. s.id) stops
  unfolding api_stop
  map-api_stop m [] = refl
  map-api_stop m (s ∷ stops) = ap (λ ids. s.id ∷ ids) (map-api_stop m stops)

  -- On a consistent database the response has the stops, in their order: no query fails, and the
  -- nil route of a trip and the nil map of service maps are not met.
  pub build_stops_response-total :
      {R : Type 0} (q : StopQueries lib R) (known_route : ℕ → Bool) (ok : Consistent q known_route)
      (now : lib.Time) (stops : List (DbStop R)) (skip : Skip)
      → (a : List (ApiStop R)) × (build_stops_response lib g q now system_id stops skip ≡ reply a)
        × (map (λ s. s.id) a ≡ map (λ s. s.id) stops)
  unfolding build_stops_response stop_pk_to_api_service_maps stop_pk_to_api_stop_times
  build_stops_response-total q known_route ok now stops skip =
      let (d, read, usable) = get_raw_stop_data-total q known_route ok now stops skip in
      let previews = stop_previews lib g system_id d.all_stops [] in
      let routes = route_previews lib g system_id d.all_routes [] in
      let (maps, maps_done) =
        add_service_maps-total d.service_maps (empty_service_maps d.service_map_config_ids []) (
          every_of _ _ d.service_maps
            (λ r known.
              keys-empty_service_maps d.service_map_config_ids [] r.stop_pk (rw known refl))
            usable.1) in
      let (times, times_done) =
        group_stop_times-total routes previews
          (destinations_of_rows lib g system_id previews d.trip_destinations []) d.stop_times []
          (every_of _ _ d.stop_times
            (λ t known. keys-route_previews d.all_routes [] t.route_pk (rw known refl)) usable.0) in
      let m : StopMaps = record {
        previews = previews;
        children = d.stop_pk_to_child_pks;
        transfers = stop_pk_to_api_transfers lib g system_id d previews;
        service_maps = all_service_maps routes maps;
        alerts = stop_pk_to_api_alerts lib g system_id d;
        stop_times = lift_to_ancestors d.stop_pk_to_descendent_pks times;
        headsign_rules = stop_pk_to_api_headsign_rules lib g system_id d previews;
      } in
      (
        map (api_stop lib g system_id m) stops,
        rw read (rw maps_done (rw times_done refl)),
        map-api_stop m stops,
      )
