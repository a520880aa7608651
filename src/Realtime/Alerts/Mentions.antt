-- ===== src/Realtime/Alerts/Mentions.antt =====
-- The alerts that `insertAlerts` of internal/update/realtime/realtime.go is given, and the IDs that
-- its first loop collects.
use Prim.Native.String.{String}
use transiter.Base.{
  Bool, List, Option, [], false, if◌then◌else◌, nat_keys, none, some, string_keys, true, ℕ, ◌++◌,
  ◌==◌, ◌||◌, ◌∷◌,
}
use transiter.Base.Int.{int_keys, ℤ}
use transiter.Base.Maps.{Map}
use transiter.Realtime.Alerts.{Alert}

-- gtfs.TripID; a start date or time is none where the flag that the trip has it is not set.
pub record InformedTrip : Type 0 where
  pub id : String
  pub route_id : String
  pub direction_id : Option Bool
  pub start_date : Option ℤ
  pub start_time : Option ℤ

-- gtfs.AlertInformedEntity; the route type is none where it is unknown.
pub record InformedEntity : Type 0 where
  pub agency_id : Option String
  pub route_id : Option String
  pub stop_id : Option String
  pub trip_id : Option InformedTrip
  pub route_type : Option String

-- The rest of a gtfs.Alert. A text stands as `convertAlertText` gives it.
pub record AlertBody : Type 0 where
  pub cause : String
  pub effect : String
  pub header : String
  pub description : String
  pub url : String
  pub informed_entities : List InformedEntity
  pub active_periods : List (Option ℤ × Option ℤ)

-- The arguments of the queries that insert what belongs to an alert.
pub record InsertAlertTrip : Type 0 where
  pub alert_pk : ℕ
  pub trip_pk : Option ℕ
  pub scheduled_trip_pk : Option ℕ
  pub route_pk : Option ℕ
  pub direction_id : Option Bool
  pub start_date : Option ℤ
  pub start_time : Option ℤ

pub data AlertInsert : Type 0 where
  insert_alert_agency insert_alert_route insert_alert_stop : ℕ → ℕ → AlertInsert
  insert_alert_trip : InsertAlertTrip → AlertInsert
  insert_alert_route_type : ℕ → String → AlertInsert
  insert_alert_active_period : ℕ → Option ℤ → Option ℤ → AlertInsert

-- The IDs that the first loop collects.
pub record MentionedIds : Type 0 where
  pub agency_referenced : Bool
  pub route_ids : List String
  pub stop_ids : List String
  pub trip_ids : List String

abbrev pub id_list : Option String → List String
id_list none = []
id_list (some id) = id ∷ []

abbrev pub is_some : {A : Type 0} → Option A → Bool
is_some none = false
is_some (some a) = true

-- The IDs of a trip and of its route, of a trip that has an ID.
abbrev pub trip_id_list : Option InformedTrip → List String
trip_id_list none = []
trip_id_list (some trip) = if trip.id == "" then [] else trip.id ∷ []

abbrev pub trip_route_id_list : Option InformedTrip → List String
trip_route_id_list none = []
trip_route_id_list (some trip) =
    if trip.id == "" then [] else (if trip.route_id == "" then [] else trip.route_id ∷ [])

unfoldable pub mention : InformedEntity → MentionedIds → MentionedIds
mention e all_ids = record {
  agency_referenced = is_some e.agency_id || all_ids.agency_referenced;
  route_ids = all_ids.route_ids ++ id_list e.route_id ++ trip_route_id_list e.trip_id;
  stop_ids = all_ids.stop_ids ++ id_list e.stop_id;
  trip_ids = all_ids.trip_ids ++ trip_id_list e.trip_id;
}

unfoldable pub mention_all : List InformedEntity → MentionedIds → MentionedIds
unfolding mention
mention_all [] all_ids = all_ids
mention_all (e ∷ es) all_ids = mention_all es (mention e all_ids)

unfoldable pub mentioned_ids : List (Alert AlertBody) → MentionedIds → MentionedIds
unfolding mention_all
mentioned_ids [] all_ids = all_ids
mentioned_ids (alert ∷ alerts) all_ids =
    mentioned_ids alerts (mention_all alert.body.informed_entities all_ids)

-- The primary keys of what the alerts mention.
pub record MentionedPks : Type 0 where
  pub agency_id_to_pk : Map String ℕ
  pub route_id_to_pk : Map String ℕ
  pub stop_id_to_pk : Map String ℕ
  pub trip_id_to_pk : Map String ℕ
  pub scheduled_trip_id_to_pk : Map String ℕ
