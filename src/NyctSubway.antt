-- ===== src/NyctSubway.antt =====
-- The headsigns and the accessibility of the stops of the New York City subway:
-- internal/update/nyctsubwaycsv/nyctsubwaycsv.go.
pub mod CustomRules
pub mod Parse
pub mod Update
pub mod Headsigns
pub mod Priorities
pub mod Rules
pub mod Matching
mod Tests
use Prim.Native.String.{String}
use transiter.Base.{List, Option, nat_keys, string_keys}
use transiter.Base.Int.{int_keys}

pub record StopHeadsignRule : Type 0 where
  pub stop_id : String
  pub track : Option String
  pub headsign : String

-- gtfs.WheelchairBoarding
pub data WheelchairBoarding : Type 0 where
  not_specified : WheelchairBoarding
  possible : WheelchairBoarding
  not_possible : WheelchairBoarding

pub record StopAccessibilityInfo : Type 0 where
  pub stop_id : String
  pub wheelchair_boarding : WheelchairBoarding

pub record NyctSubwayStopCsvData : Type 0 where
  pub stop_headsign_rules : List StopHeadsignRule
  pub stop_accessibility_data : List StopAccessibilityInfo

-- What is called of Go's strings package.
pub record TextLib : Type 0 where
  pub to_lower : String → String
  pub trim_space : String → String
