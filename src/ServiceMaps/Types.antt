-- ===== src/ServiceMaps/Types.antt =====
-- The data of internal/servicemaps/servicemaps.go: the parts of a GTFS trip and of a service map
-- configuration that the package reads. IDs are texts, primary keys are numbers.
use Prim.Native.String.{String}
use transiter.Base.{Bool, List, Option, [], nat_keys, none, some, string_keys, ℕ}
use transiter.Base.Int.{ℤ}
use transiter.Graph.Types.{edge_keys}

-- Go's standard library, as far as the package calls it: float64, strings.ToLower and fmt.Sprintf.
pub record GoLib : Type 1 where
  pub Float : Type 0
  pub float_of_int : ℕ → Float
  pub float_mul : Float → Float → Float
  pub float_lt : Float → Float → Bool
  -- `time.Duration(in * float64(time.Hour))`
  pub hours : Float → ℤ
  pub to_lower : String → String
  -- `fmt.Sprintf("%d-", pk)`
  pub sprintf_key : ℕ → String

pub record Service : Type 0 where
  pub id : String
  pub monday : Bool
  pub tuesday : Bool
  pub wednesday : Bool
  pub thursday : Bool
  pub friday : Bool
  pub saturday : Bool
  pub sunday : Bool

pub data DirectionId : Type 0 where
  direction_unspecified direction_true direction_false : DirectionId

pub record StopTime : Type 0 where
  pub stop_id : String
  pub arrival_time : ℤ

pub record ScheduledTrip : Type 0 where
  pub route_id : String
  pub service : Service
  pub direction_id : DirectionId
  pub stop_times : List StopTime

pub data Source : Type 0 where
  static realtime : Source

pub record StaticOptions (Float : Type 0) : Type 0 where
  pub starts_earlier_than : Option Float
  pub starts_later_than : Option Float
  pub ends_earlier_than : Option Float
  pub ends_later_than : Option Float
  pub days : List String

pub record ServiceMapConfig (Float : Type 0) : Type 0 where
  pub id : String
  pub source : Source
  pub threshold : Float
  pub static_options : Option (StaticOptions Float)

abbrev pub no_options : {Float : Type 0} → StaticOptions Float
no_options = record {
  starts_earlier_than = none;
  starts_later_than = none;
  ends_earlier_than = none;
  ends_later_than = none;
  days = [];
}

-- `smc.GetStaticOptions()`, with the empty options in place of nil.
abbrev pub options_of : {Float : Type 0} → ServiceMapConfig Float → StaticOptions Float
options_of smc = elim smc.static_options [ none ↦ no_options | some o ↦ o ]
