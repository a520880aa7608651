-- ===== src/Realtime/Types.antt =====
-- The data of internal/update/realtime/realtime.go: the parts of a GTFS realtime trip that the
-- package reads, and the rows of the database.
use Prim.Native.String.{String}
use transiter.Base.{Bool, Option, nat_keys, none, some, string_keys, ℕ}
use transiter.Base.Int.{int_keys, ℤ}
use transiter.Base.Maps.{Map, lookup}
use transiter.Graph.Types.{edge_keys}

-- A pointer is an option. Times and delays are passed through unread.
pub record StopTimeEvent : Type 0 where
  pub time : Option ℤ
  pub delay : Option ℤ
  pub uncertainty : Option ℤ

pub record StopTimeUpdate : Type 0 where
  pub stop_id : Option String
  pub stop_sequence : Option ℕ
  pub nyct_track : Option String
  pub is_skipped : Bool
  pub arrival : StopTimeEvent
  pub departure : StopTimeEvent

-- db.ListTripStopTimesForUpdateRow
pub record StopTimeRow : Type 0 where
  pub pk : ℕ
  pub stop_pk : ℕ
  pub stop_sequence : ℤ

-- db.InsertTripStopTimeParams
pub record InsertStopTime : Type 0 where
  pub trip_pk : ℕ
  pub stop_pk : ℕ
  pub arrival : StopTimeEvent
  pub departure : StopTimeEvent
  pub stop_sequence : ℤ
  pub track : Option String
  pub headsign : Option String
  pub past : Bool

-- db.MarkTripStopTimesPastParams
pub record MarkPast : Type 0 where
  pub trip_pk : ℕ
  pub current_stop_sequence : ℤ

-- db.StopHeadsignRule
pub record HeadsignRule : Type 0 where
  pub stop_pk : ℕ
  pub track : Option String
  pub headsign : String

-- The stop of an update, if the system has it.
unfoldable pub stop_pk_of : Map String ℕ → Option String → Option ℕ
stop_pk_of stop_id_to_pk none = none
stop_pk_of stop_id_to_pk (some id) = lookup id stop_id_to_pk
