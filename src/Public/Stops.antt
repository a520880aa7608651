-- ===== src/Public/Stops.antt =====
-- The rows that the handlers of internal/public/endpoints/stop.go read, and the requests and
-- replies.
pub mod RawData
pub mod Response
pub mod Build
pub mod Handlers
pub mod Lifting
pub mod Members
pub mod Consistent
pub mod Total
pub mod Paging
pub mod Bounds
use Prim.Native.String.{String}
use transiter.Base.{Bool, List, Option, nat_keys, string_keys, ℕ}
use transiter.Base.Int.{int_keys, ℤ}
use transiter.Base.Maps.{Map}
use transiter.Public.Reference.{PublicLibrary}
use transiter.Public.Results.{DbSystem, Queried}

-- db.Stop, and the columns that are only copied: code, description, zone ID, location, URL,
-- timezone, platform code and wheelchair boarding.
pub record DbStop (Rest : Type 0) : Type 0 where
  pub pk : ℕ
  pub id : String
  pub name : Option String
  pub parent_stop_pk : Option ℕ
  pub type_name : String
  pub rest : Rest

pub record DbTransfer : Type 0 where
  pub id : String
  pub from_stop_pk : ℕ
  pub to_stop_pk : ℕ
  pub type_name : String
  pub min_transfer_time : Option ℤ

-- db.ListActiveAlertsForStopsRow
pub record StopAlertRow : Type 0 where
  pub stop_pk : ℕ
  pub id : String
  pub cause : String
  pub effect : String

-- The three columns of an arrival or a departure.
pub record EstimateColumns (Time : Type 0) : Type 0 where
  pub time : Option Time
  pub delay : Option ℤ
  pub uncertainty : Option ℤ

-- db.ListTripStopTimesByStopsRow
pub record StopTimeByStopRow (Time : Type 0) : Type 0 where
  pub stop_pk : ℕ
  pub trip_pk : ℕ
  pub route_pk : ℕ
  pub id : String
  pub direction_id : Option Bool
  pub stop_sequence : ℤ
  pub track : Option String
  pub past : Bool
  pub headsign : Option String
  pub scheduled_trip_headsign : Option String
  pub arrival : EstimateColumns Time
  pub departure : EstimateColumns Time
  pub vehicle_id : Option String

-- db.GetDestinationsForTripsRow
pub record DestinationRow : Type 0 where
  pub trip_pk : ℕ
  pub destination_pk : ℕ

-- db.ListServiceMapsForStopsRow
pub record StopServiceMapRow : Type 0 where
  pub stop_pk : ℕ
  pub config_id : String
  pub route_pk : ℕ

-- db.ListServiceMapsConfigIDsForStopsRow
pub record StopConfigRow : Type 0 where
  pub pk : ℕ
  pub id : String

-- db.StopHeadsignRule
pub record HeadsignRuleRow : Type 0 where
  pub stop_pk : ℕ
  pub priority : ℤ
  pub track : Option String
  pub headsign : String

-- db.ListStopsByPkRow
pub record StopByPkRow : Type 0 where
  pub pk : ℕ
  pub stop_id : String
  pub name : Option String

-- db.ListRoutesByPkRow
pub record RouteByPkRow : Type 0 where
  pub pk : ℕ
  pub id : String
  pub color : String

-- db.ListStopsParams
pub record ListStopsParams : Type 0 where
  pub system_pk : ℕ
  pub first_stop_id : String
  pub num_stops : ℤ
  pub filter_by_id : Bool
  pub stop_ids : List String
  pub filter_by_type : Bool
  pub types : List String

-- stopRequest
pub record Skip : Type 0 where
  pub stop_times : Bool
  pub service_maps : Bool
  pub alerts : Bool
  pub transfers : Bool

module _ (lib : PublicLibrary) (Rest : Type 0) where
  -- db.ListStops_GeographicParams
  pub record GeographicParams : Type 0 where
    pub system_pk : ℕ
    pub base : lib.Geography
    pub max_distance : lib.Float
    pub max_results : ℤ
    pub filter_by_type : Bool
    pub types : List String

  -- The queries of the handlers of stops.
  pub record StopQueries : Type 0 where
    pub query_system : String → Queried DbSystem
    pub list_stops : ListStopsParams → Queried (List (DbStop Rest))
    pub list_stops_geographic : GeographicParams → Queried (List (DbStop Rest))
    pub query_stop : DbSystem → String → Queried (DbStop Rest)
    -- Pairs of a parent and a child.
    pub child_pks : List ℕ → Queried (List (ℕ × ℕ))
    -- Pairs of a root and a descendant.
    pub descendent_pks : List ℕ → Queried (List (ℕ × ℕ))
    pub transfers_from_stops : List ℕ → Queried (List DbTransfer)
    pub active_alerts_for_stops : List ℕ → lib.Time → Queried (List StopAlertRow)
    pub stop_times_by_stops : List ℕ → Queried (List (StopTimeByStopRow lib.Time))
    pub destinations_for_trips : List ℕ → Queried (List DestinationRow)
    pub service_maps_for_stops : List ℕ → Queried (List StopServiceMapRow)
    pub config_ids_for_stops : List ℕ → Queried (List StopConfigRow)
    pub headsign_rules_for_stops : List ℕ → Queried (List HeadsignRuleRow)
    pub stops_by_pk : List ℕ → Queried (List StopByPkRow)
    pub routes_by_pk : List ℕ → Queried (List RouteByPkRow)

  -- api.ListStopsRequest; the types by their numbers.
  pub record ListStopsRequest : Type 0 where
    pub system_id : String
    pub only_return_specified_ids : Bool
    pub filter_by_id : Bool
    pub ids : List String
    pub filter_by_type : Bool
    pub types : List ℕ
    pub limit : Option ℤ
    pub first_id : Option String
    pub by_distance : Bool
    pub latitude : Option lib.Float
    pub longitude : Option lib.Float
    pub max_distance : Option lib.Float
    pub skip : Skip

-- rawStopData
pub record RawStopData (Time : Type 0) : Type 0 where
  pub stop_pk_to_descendent_pks : Map ℕ (List ℕ)
  pub transfers : List DbTransfer
  pub alerts : List StopAlertRow
  pub stop_times : List (StopTimeByStopRow Time)
  pub trip_destinations : List DestinationRow
  pub service_maps : List StopServiceMapRow
  pub service_map_config_ids : List StopConfigRow
  pub headsign_rules : List HeadsignRuleRow
  pub all_stops : List StopByPkRow
  pub all_routes : List RouteByPkRow
  pub stop_pk_to_child_pks : Map ℕ (List ℕ)
