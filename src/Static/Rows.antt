-- ===== src/Static/Rows.antt =====
-- The rows of a GTFS static feed and the columns that internal/update/static/static.go writes of
-- them.
-- convert.NullIfEmptyString
use Prim.Native.String.{String}
use transiter.Base.{Bool, Option, if◌then◌else◌, nat_keys, none, some, string_keys, ℕ, ◌==◌}
use transiter.Base.Int.{int_keys, ℤ}

unfoldable pub null_if_empty_string : String → Option String
null_if_empty_string s = if s == "" then none else some s

-- gtfs.Agency
pub record Agency : Type 0 where
  pub id : String
  pub name : String
  pub url : String
  pub timezone : String
  pub language : String
  pub phone : String
  pub fare_url : String
  pub email : String

-- db.UpdateAgencyParams and db.InsertAgencyParams: the columns that both write.
pub record AgencyColumns : Type 0 where
  pub feed_pk : ℕ
  pub name : String
  pub url : String
  pub timezone : String
  pub language : Option String
  pub phone : Option String
  pub fare_url : Option String
  pub email : Option String

unfoldable pub agency_columns : ℕ → Agency → AgencyColumns
unfolding null_if_empty_string
agency_columns feed_pk agency = record {
  feed_pk = feed_pk;
  name = agency.name;
  url = agency.url;
  timezone = agency.timezone;
  language = null_if_empty_string agency.language;
  phone = null_if_empty_string agency.phone;
  fare_url = null_if_empty_string agency.fare_url;
  email = null_if_empty_string agency.email;
}

-- gtfs.Route. The texts of its enumerations are those of their method `String`.
pub record Route : Type 0 where
  pub id : String
  pub agency_id : String
  pub color : String
  pub text_color : String
  pub short_name : String
  pub long_name : String
  pub description : String
  pub url : String
  pub sort_order : Option ℤ
  pub route_type : String
  pub continuous_pickup : String
  pub continuous_drop_off : String

pub record RouteColumns : Type 0 where
  pub feed_pk : ℕ
  pub color : String
  pub text_color : String
  pub short_name : Option String
  pub long_name : Option String
  pub description : Option String
  pub url : Option String
  pub sort_order : Option ℤ
  pub route_type : String
  pub continuous_pickup : String
  pub continuous_drop_off : String
  pub agency_pk : ℕ

unfoldable pub route_columns : ℕ → ℕ → Route → RouteColumns
unfolding null_if_empty_string
route_columns feed_pk agency_pk route = record {
  feed_pk = feed_pk;
  color = route.color;
  text_color = route.text_color;
  short_name = null_if_empty_string route.short_name;
  long_name = null_if_empty_string route.long_name;
  description = null_if_empty_string route.description;
  url = null_if_empty_string route.url;
  sort_order = route.sort_order;
  route_type = route.route_type;
  continuous_pickup = route.continuous_pickup;
  continuous_drop_off = route.continuous_drop_off;
  agency_pk = agency_pk;
}

-- gtfs.Stop, with the ID of the parent. A location is the pair of longitude and latitude.
pub record Stop (Location : Type 0) : Type 0 where
  pub id : String
  pub parent : Option String
  pub name : String
  pub stop_type : String
  pub longitude : Option Location
  pub latitude : Option Location
  pub url : String
  pub stop_code : String
  pub description : String
  pub platform_code : String
  pub timezone : String
  pub wheelchair_boarding : Option Bool
  pub zone_id : String

-- db.InsertStopParams; `update_wheelchair_boarding` is of db.UpdateStopParams.
pub record StopColumns (Location : Type 0) : Type 0 where
  pub feed_pk : ℕ
  pub name : Option String
  pub stop_type : String
  pub location : Option (Location × Location)
  pub url : Option String
  pub stop_code : Option String
  pub description : Option String
  pub platform_code : Option String
  pub timezone : Option String
  pub update_wheelchair_boarding : Bool
  pub wheelchair_boarding : Option Bool
  pub zone_id : Option String

-- convert.Gps
unfoldable pub gps : {L : Type 0} → Option L → Option L → Option (L × L)
gps none latitude = none
gps (some longitude) none = none
gps (some longitude) (some latitude) = some (longitude, latitude)

unfoldable pub stop_columns : {L : Type 0} → ℕ → Bool → Stop L → StopColumns L
unfolding null_if_empty_string gps
stop_columns feed_pk use_accessibility_info stop = record {
  feed_pk = feed_pk;
  name = null_if_empty_string stop.name;
  stop_type = stop.stop_type;
  location = gps stop.longitude stop.latitude;
  url = null_if_empty_string stop.url;
  stop_code = null_if_empty_string stop.stop_code;
  description = null_if_empty_string stop.description;
  platform_code = null_if_empty_string stop.platform_code;
  timezone = null_if_empty_string stop.timezone;
  update_wheelchair_boarding = use_accessibility_info;
  wheelchair_boarding = stop.wheelchair_boarding;
  zone_id = null_if_empty_string stop.zone_id;
}
