-- ===== src/Public/Stops/Build.antt =====
-- The service maps of stops and buildStopsResponse of internal/public/endpoints/stop.go.
use Prim.Native.String.{String}
use transiter.Base.{List, Option, [], map, nat_keys, none, some, string_keys, ℕ, ◌++◌, ◌∷◌}
use transiter.Base.Int.{int_keys}
use transiter.Base.Maps.{Map, insert, lookup}
use transiter.Public.Reference.{
  AlertReference, Generator, PublicLibrary, RouteReference, StopReference, stop_reference,
  system_reference,
}
use transiter.Public.Results.{Response, and_then, panics, reply}
use transiter.Public.Stops.{
  DbStop, RawStopData, Skip, StopConfigRow, StopQueries, StopServiceMapRow,
}
use transiter.Public.Stops.RawData.{get_raw_stop_data, list_at}
use transiter.Public.Stops.Response.{
  ApiHeadsignRule, ApiServiceMap, ApiStop, ApiStopTime, ApiTransfer, route_previews,
  stop_pk_to_api_alerts, stop_pk_to_api_headsign_rules, stop_pk_to_api_stop_times,
  stop_pk_to_api_transfers, stop_previews,
}

abbrev pub inner_map : ℕ → Map ℕ (Map String (List ℕ)) → Map String (List ℕ)
inner_map pk m = elim (lookup pk m) [ none ↦ [] | some inner ↦ inner ]

unfoldable pub empty_service_maps :
    List StopConfigRow → Map ℕ (Map String (List ℕ)) → Map ℕ (Map String (List ℕ))
empty_service_maps [] m = m
empty_service_maps (c ∷ rows) m =
    empty_service_maps rows (insert c.pk (insert c.id [] (inner_map c.pk m)) m)

abbrev pub routes_in : String → Map String (List ℕ) → List ℕ
routes_in config_id inner = elim (lookup config_id inner) [ none ↦ [] | some pks ↦ pks ]

-- A write to the nil map of a stop that has no configuration panics.
unfoldable pub add_service_maps :
    List StopServiceMapRow → Map ℕ (Map String (List ℕ)) → Response (Map ℕ (Map String (List ℕ)))
add_service_maps [] m = reply m
add_service_maps (s ∷ rows) m = elim (lookup s.stop_pk m) [
  | none ↦ panics
  | some inner ↦ add_service_maps rows (
      insert s.stop_pk (insert s.config_id (routes_in s.config_id inner ++ s.route_pk ∷ []) inner)
        m)
]

unfoldable pub api_service_maps : Map ℕ RouteReference → Map String (List ℕ) → List ApiServiceMap
api_service_maps routes [] = []
api_service_maps routes ((config_id, pks) ∷ inner) =
    record { config_id = config_id; routes = map (λ pk. lookup pk routes) pks }
    ∷ api_service_maps routes inner

unfoldable pub all_service_maps :
    Map ℕ RouteReference → Map ℕ (Map String (List ℕ)) → Map ℕ (List ApiServiceMap)
unfolding api_service_maps
all_service_maps routes [] = []
all_service_maps routes ((pk, inner) ∷ m) =
    (pk, api_service_maps routes inner) ∷ all_service_maps routes m

unfoldable pub stop_pk_to_api_service_maps :
    {Time : Type 0}
    → RawStopData Time
    → Map ℕ RouteReference
    → Response (Map ℕ (List ApiServiceMap))
unfolding empty_service_maps add_service_maps all_service_maps
stop_pk_to_api_service_maps data_read routes =
    and_then
      (add_service_maps data_read.service_maps
        (empty_service_maps data_read.service_map_config_ids []))
      (λ m. reply (all_service_maps routes m))

abbrev pub parent_of : Map ℕ StopReference → Option ℕ → Option StopReference
parent_of previews none = none
parent_of previews (some pk) = lookup pk previews

-- The maps that a stop of the reply is read from.
pub record StopMaps : Type 0 where
  pub previews : Map ℕ StopReference
  pub children : Map ℕ (List ℕ)
  pub transfers : Map ℕ (List ApiTransfer)
  pub service_maps : Map ℕ (List ApiServiceMap)
  pub alerts : Map ℕ (List AlertReference)
  pub stop_times : Map ℕ (List ApiStopTime)
  pub headsign_rules : Map ℕ (List ApiHeadsignRule)

module _ (lib : PublicLibrary) (g : Generator) {R : Type 0} where
  unfoldable pub api_stop : String → StopMaps → DbStop R → ApiStop R
  unfolding system_reference stop_reference
  api_stop system_id m s = record {
    id = s.id;
    system = system_reference lib g system_id;
    resource = (stop_reference lib g s.id system_id s.name).resource;
    name = s.name;
    kind = lib.stop_type s.type_name;
    rest = s.rest;
    parent_stop = parent_of m.previews s.parent_stop_pk;
    child_stops = map (λ pk. lookup pk m.previews) (list_at s.pk m.children);
    transfers = list_at s.pk m.transfers;
    service_maps = list_at s.pk m.service_maps;
    alerts = list_at s.pk m.alerts;
    stop_times = list_at s.pk m.stop_times;
    headsign_rules = list_at s.pk m.headsign_rules;
  }

  unfoldable pub build_stops_response :
      StopQueries lib R → lib.Time → String → List (DbStop R) → Skip → Response (List (ApiStop R))
  unfolding get_raw_stop_data stop_previews route_previews stop_pk_to_api_transfers
      stop_pk_to_api_service_maps stop_pk_to_api_alerts stop_pk_to_api_stop_times
      stop_pk_to_api_headsign_rules api_stop
  build_stops_response q now system_id stops skip =
      and_then (get_raw_stop_data q now stops skip) (λ data_read.
        let previews = stop_previews lib g system_id data_read.all_stops [] in
        let routes = route_previews lib g system_id data_read.all_routes [] in
        and_then (stop_pk_to_api_service_maps data_read routes) (λ service_maps.
          and_then (stop_pk_to_api_stop_times lib g system_id data_read routes previews)
            (λ stop_times. reply (
              map
                (api_stop system_id (record {
                  previews = previews;
                  children = data_read.stop_pk_to_child_pks;
                  transfers = stop_pk_to_api_transfers lib g system_id data_read previews;
                  service_maps = service_maps;
                  alerts = stop_pk_to_api_alerts lib g system_id data_read;
                  stop_times = stop_times;
                  headsign_rules = stop_pk_to_api_headsign_rules lib g system_id data_read previews;
                }))
                stops))))
