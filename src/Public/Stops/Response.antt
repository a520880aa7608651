-- ===== src/Public/Stops/Response.antt =====
-- buildStopsResponse of internal/public/endpoints/stop.go and the maps that it builds.
use Prim.Native.String.{String}
use transiter.Base.{
  Bool, List, Option, [], false, nat_keys, none, not, some, string_keys, ℕ, ◌++◌, ◌∷◌,
}
use transiter.Base.Int.{int_keys, ℤ}
use transiter.Base.Maps.{Map, insert, insert_each, lookup}
use transiter.Public.Reference.{
  AlertReference, Generator, PublicLibrary, Resource, RouteReference, StopReference,
  SystemReference, TripReference, VehicleReference, alert_reference, route_reference,
  stop_reference, trip_reference, vehicle_reference,
}
use transiter.Public.Results.{Response, and_then, reply}
use transiter.Public.Stops.{
  DbTransfer, DestinationRow, EstimateColumns, HeadsignRuleRow, RawStopData, RouteByPkRow,
  StopByPkRow, StopTimeByStopRow,
}
use transiter.Public.Stops.RawData.{append_at, list_at}
use transiter.ServiceMaps.StaticMaps.Counts.{key_of}

pub record ApiTransfer : Type 0 where
  pub id : String
  pub from_stop : Option StopReference
  pub to_stop : Option StopReference
  pub kind : ℕ
  pub min_transfer_time : Option ℤ

-- api.Stop_ServiceMap; a route that is not known is nil.
pub record ApiServiceMap : Type 0 where
  pub config_id : String
  pub routes : List (Option RouteReference)

-- api.StopTime_EstimatedTime, its time in Unix seconds
pub record EstimatedTime : Type 0 where
  pub time : Option ℤ
  pub delay : Option ℤ
  pub uncertainty : Option ℤ

-- api.StopTime; its trip also has the vehicle.
pub record ApiStopTime : Type 0 where
  pub stop_sequence : ℤ
  pub track : Option String
  pub future : Bool
  pub headsign : Option String
  pub arrival : EstimatedTime
  pub departure : EstimatedTime
  pub trip : TripReference
  pub destination : Option StopReference
  pub stop : Option StopReference
  pub vehicle : Option VehicleReference

pub record ApiHeadsignRule : Type 0 where
  pub stop : Option StopReference
  pub priority : ℤ
  pub track : Option String
  pub headsign : String

-- api.Stop
pub record ApiStop (Rest : Type 0) : Type 0 where
  pub id : String
  pub system : SystemReference
  pub resource : Resource
  pub name : Option String
  pub kind : ℕ
  pub rest : Rest
  pub parent_stop : Option StopReference
  pub child_stops : List (Option StopReference)
  pub transfers : List ApiTransfer
  pub service_maps : List ApiServiceMap
  pub alerts : List AlertReference
  pub stop_times : List ApiStopTime
  pub headsign_rules : List ApiHeadsignRule

-- The items of each of the stops of a set, one stop after the other.
unfoldable pub collect_items {ℓ} : {T : Type ℓ} → List ℕ → Map ℕ (List T) → List T
collect_items [] items = []
collect_items (pk ∷ pks) items = list_at pk items ++ collect_items pks items

unfoldable pub lift_to_ancestors {ℓ} :
    {T : Type ℓ} → Map ℕ (List ℕ) → Map ℕ (List T) → Map ℕ (List T)
unfolding collect_items
lift_to_ancestors descendents items =
    insert_each (λ pk pks _. collect_items pks items) descendents []

-- A loop that appends at the stop of each row.
unfoldable pub group_rows {ℓ κ} :
    {A : Type ℓ} {T : Type κ} → (A → ℕ) → (A → T) → List A → Map ℕ (List T) → Map ℕ (List T)
unfolding append_at
group_rows key_of item_of [] m = m
group_rows key_of item_of (r ∷ rs) m =
    group_rows key_of item_of rs (append_at (key_of r) (item_of r) m)

module _ (lib : PublicLibrary) (g : Generator) (system_id : String) where
  unfoldable pub stop_previews : List StopByPkRow → Map ℕ StopReference → Map ℕ StopReference
  unfolding stop_reference
  stop_previews [] m = m
  stop_previews (s ∷ rows) m =
      stop_previews rows (insert s.pk (stop_reference lib g s.stop_id system_id s.name) m)

  unfoldable pub route_previews : List RouteByPkRow → Map ℕ RouteReference → Map ℕ RouteReference
  unfolding route_reference
  route_previews [] m = m
  route_previews (r ∷ rows) m =
      route_previews rows (insert r.pk (route_reference lib g r.id system_id r.color) m)

  unfoldable pub api_transfer : Map ℕ StopReference → DbTransfer → ApiTransfer
  api_transfer previews t = record {
    id = t.id;
    from_stop = lookup t.from_stop_pk previews;
    to_stop = lookup t.to_stop_pk previews;
    kind = lib.transfer_type t.type_name;
    min_transfer_time = t.min_transfer_time;
  }

  unfoldable pub stop_pk_to_api_transfers :
      RawStopData lib.Time → Map ℕ StopReference → Map ℕ (List ApiTransfer)
  unfolding api_transfer lift_to_ancestors group_rows
  stop_pk_to_api_transfers data_read previews =
      lift_to_ancestors data_read.stop_pk_to_descendent_pks
        (group_rows (λ t. t.from_stop_pk) (api_transfer previews) data_read.transfers [])

  unfoldable pub stop_pk_to_api_alerts : RawStopData lib.Time → Map ℕ (List AlertReference)
  unfolding lift_to_ancestors group_rows alert_reference
  stop_pk_to_api_alerts data_read = lift_to_ancestors data_read.stop_pk_to_descendent_pks (
      group_rows (λ a. a.stop_pk) (λ a. alert_reference lib g a.id system_id a.cause a.effect)
        data_read.alerts [])

  unfoldable pub api_headsign_rule : Map ℕ StopReference → HeadsignRuleRow → ApiHeadsignRule
  api_headsign_rule previews r = record {
    stop = lookup r.stop_pk previews;
    priority = r.priority;
    track = r.track;
    headsign = r.headsign;
  }

  unfoldable pub stop_pk_to_api_headsign_rules :
      RawStopData lib.Time → Map ℕ StopReference → Map ℕ (List ApiHeadsignRule)
  unfolding api_headsign_rule lift_to_ancestors group_rows
  stop_pk_to_api_headsign_rules data_read previews =
      lift_to_ancestors data_read.stop_pk_to_descendent_pks
        (group_rows (λ r. r.stop_pk) (api_headsign_rule previews) data_read.headsign_rules [])

  unfoldable pub destinations_of_rows :
      Map ℕ StopReference
      → List DestinationRow
      → Map ℕ (Option StopReference)
      → Map ℕ (Option StopReference)
  destinations_of_rows previews [] m = m
  destinations_of_rows previews (d ∷ rows) m =
      destinations_of_rows previews rows (insert d.trip_pk (lookup d.destination_pk previews) m)

  abbrev pub unix_of : Option lib.Time → Option ℤ
  unix_of none = none
  unix_of (some t) = some (lib.unix t)

  unfoldable pub estimated_time : EstimateColumns lib.Time → EstimatedTime
  estimated_time c = record { time = unix_of c.time; delay = c.delay; uncertainty = c.uncertainty }

  -- The headsign, with the scheduled trip's as the fallback.
  abbrev pub headsign_of : Option String → Option String → Option String
  headsign_of none scheduled = scheduled
  headsign_of (some headsign) scheduled = some headsign

  abbrev pub is_true : Option Bool → Bool
  is_true none = false
  is_true (some b) = b

  abbrev pub join_option : Option (Option StopReference) → Option StopReference
  join_option none = none
  join_option (some o) = o

  abbrev pub vehicle_of : Option String → Option VehicleReference
  unfolding vehicle_reference
  vehicle_of none = none
  vehicle_of (some id) = some (vehicle_reference lib g id system_id)

  unfoldable pub api_stop_time :
      Map ℕ RouteReference
      → Map ℕ StopReference
      → Map ℕ (Option StopReference)
      → StopTimeByStopRow lib.Time
      → Response ApiStopTime
  unfolding trip_reference estimated_time
  api_stop_time routes previews destinations t =
      let destination = join_option (lookup t.trip_pk destinations) in
      and_then
        (trip_reference lib g t.id (lookup t.route_pk routes) destination none
          (is_true t.direction_id))
        (λ trip. reply (record {
          stop_sequence = t.stop_sequence;
          track = t.track;
          future = not t.past;
          headsign = headsign_of t.headsign t.scheduled_trip_headsign;
          arrival = estimated_time t.arrival;
          departure = estimated_time t.departure;
          trip = record trip { vehicle = vehicle_of t.vehicle_id };
          destination = destination;
          stop = lookup t.stop_pk previews;
          vehicle = vehicle_of t.vehicle_id;
        }))

  unfoldable pub group_stop_times :
      Map ℕ RouteReference
      → Map ℕ StopReference
      → Map ℕ (Option StopReference)
      → List (StopTimeByStopRow lib.Time)
      → Map ℕ (List ApiStopTime)
      → Response (Map ℕ (List ApiStopTime))
  unfolding api_stop_time append_at
  group_stop_times routes previews destinations [] m = reply m
  group_stop_times routes previews destinations (t ∷ rows) m =
      and_then (api_stop_time routes previews destinations t)
        (λ item. group_stop_times routes previews destinations rows (append_at t.stop_pk item m))

  unfoldable pub stop_pk_to_api_stop_times :
      RawStopData lib.Time
      → Map ℕ RouteReference
      → Map ℕ StopReference
      → Response (Map ℕ (List ApiStopTime))
  unfolding destinations_of_rows group_stop_times lift_to_ancestors
  stop_pk_to_api_stop_times data_read routes previews =
      and_then
        (group_stop_times routes previews
          (destinations_of_rows previews data_read.trip_destinations []) data_read.stop_times [])
        (λ m. reply (lift_to_ancestors data_read.stop_pk_to_descendent_pks m))
