-- ===== src/Update/Config.antt =====
-- Feed configurations: `NormalizeFeedConfig` (internal/update/update.go), and `GetFeedType` and
-- `UseAccessibilityInfoFromFeed` (internal/update/common/common.go).
use Prim.Native.String.{String}
use transiter.Base.{
  Bool, List, Option, ap, arith, false, if◌then◌else◌, nat_keys, none, not, some, string_keys, true,
  ◌==◌, ◌||◌, ◌≡◌,
}
use transiter.Base.Int.{int_keys, ℤ}

-- api.FeedConfig_SchedulingPolicy
pub data SchedulingPolicy : Type 0 where
  policy_default policy_periodic policy_daily policy_none : SchedulingPolicy

-- api.FeedConfig, with the type of its floats. `nyct_subway_options` is the flag in the options.
pub record FeedConfig (Float : Type 0) : Type 0 where
  pub id : String
  pub feed_type : String
  pub parser : String
  pub url : String
  pub request_timeout_ms : Option ℤ
  pub http_headers : List (String × String)
  pub required_for_install : Option Bool
  pub scheduling_policy : SchedulingPolicy
  pub update_period_s : Option Float
  pub periodic_update_period_ms : Option ℤ
  pub daily_update_time : String
  pub daily_update_timezone : String
  pub nyct_subway_options : Option Bool

abbrev pub nyct_subway_csv : String
nyct_subway_csv = "NYCT_SUBWAY_CSV"

abbrev pub gtfs_realtime : String
gtfs_realtime = "GTFS_REALTIME"

abbrev pub gtfs_static : String
gtfs_static = "GTFS_STATIC"

-- The type, or the deprecated parser where there is no type.
abbrev pub type_or_parser : {F : Type 0} → FeedConfig F → String
type_or_parser fc = if fc.feed_type == "" then fc.parser else fc.feed_type

abbrev pub required_or_default : String → Option Bool → Bool
required_or_default feed_type none = not (feed_type == gtfs_realtime)
required_or_default feed_type (some b) = b

unfoldable pub normalize_feed_config : {F : Type 0} → FeedConfig F → FeedConfig F
normalize_feed_config fc = record fc {
  feed_type = type_or_parser fc;
  required_for_install = some (required_or_default (type_or_parser fc) fc.required_for_install);
}

-- The argument is a pointer.
unfoldable pub get_feed_type : {F : Type 0} → Option (FeedConfig F) → String
get_feed_type none = ""
get_feed_type (some fc) = if not (fc.feed_type == "") then fc.feed_type else fc.parser

abbrev pub accessibility_of : String → Option Bool → Bool
accessibility_of feed_type none = feed_type == gtfs_static
accessibility_of feed_type (some option) =
    if feed_type == gtfs_static || feed_type == nyct_subway_csv then option else false

unfoldable pub use_accessibility_info_from_feed : {F : Type 0} → Option (FeedConfig F) → Bool
unfolding get_feed_type
use_accessibility_info_from_feed none = true
use_accessibility_info_from_feed (some fc) =
    accessibility_of (get_feed_type (some fc)) fc.nyct_subway_options

type_or_parser-normalized :
    {F : Type 0} (fc : FeedConfig F) → type_or_parser (normalize_feed_config fc) ≡ type_or_parser fc
unfolding normalize_feed_config
type_or_parser-normalized fc = ground arith

-- Normalizing a configuration changes neither its feed type nor whether its accessibility
-- information is used, and a second time nothing at all; afterwards the type is the feed type.
pub normalize_feed_config_lem :
    {F : Type 0} (fc : FeedConfig F)
    → (get_feed_type (some (normalize_feed_config fc)) ≡ get_feed_type (some fc))
      × (use_accessibility_info_from_feed (some (normalize_feed_config fc))
          ≡ use_accessibility_info_from_feed (some fc))
      × ((normalize_feed_config fc).feed_type ≡ get_feed_type (some fc))
      × (normalize_feed_config (normalize_feed_config fc) ≡ normalize_feed_config fc)
unfolding normalize_feed_config get_feed_type use_accessibility_info_from_feed
normalize_feed_config_lem fc = (
  ground arith,
  ground arith,
  ground arith,
  ap
      (λ t. record fc {
        feed_type = t;
        required_for_install =
            some (required_or_default (type_or_parser fc) fc.required_for_install);
      })
      (type_or_parser-normalized fc),
)
