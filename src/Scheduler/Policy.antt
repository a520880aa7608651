-- ===== src/Scheduler/Policy.antt =====
-- `NormalizeSchedulingPolicy` of internal/scheduler/scheduler.go. What it calls of Go's library is
-- a parameter: the conversions of floats, `strings`, `strconv` and the time zones of the machine.
pub mod Runnable
use Prim.Native.String.{String}
use transiter.Base.{
  Bool, List, Option, [], if◌then◌else◌, nat_keys, none, some, string_keys, ℕ, ◌%◌, ◌*◌, ◌+◌, ◌/◌,
  ◌==◌, ◌∷◌,
}
use transiter.Base.Int.{int_keys, pos, ℤ}
use transiter.Update.Config.{
  FeedConfig, SchedulingPolicy, gtfs_realtime, normalize_feed_config, policy_daily, policy_default,
  policy_periodic,
}

pub record GoTime : Type 1 where
  pub Float : Type 0
  pub float_is_zero : Float → Bool
  -- `int64(s * 1000)`
  pub int64_of_millis : Float → ℤ
  -- `strings.Split(s, ":")`
  pub split_colon : String → List String
  pub trim_space : String → String
  -- `strconv.Atoi`, none if it returns an error
  pub atoi : String → Option ℤ
  -- `fmt.Sprintf("%02d:%02d", hour, minute)`
  pub sprintf_time : ℕ → ℕ → String
  -- Whether `time.LoadLocation` returns no error.
  pub load_location : String → Bool

-- api.Agency, as far as it is read here.
pub record ApiAgency : Type 0 where
  pub id : String
  pub timezone : String

module _ (lib : GoTime) where
  abbrev pub both_parsed : Option ℤ → Option ℤ → Option (ℤ × ℤ)
  both_parsed none m = none
  both_parsed (some h) none = none
  both_parsed (some h) (some m) = some (h, m)

  abbrev pub parse_pieces : List String → Option (ℤ × ℤ)
  parse_pieces (h ∷ m ∷ []) =
      both_parsed (lib.atoi (lib.trim_space h)) (lib.atoi (lib.trim_space m))
  parse_pieces _ = none

  -- The hour and the minute; none where the code returns false.
  unfoldable pub parse_daily_update_time : String → Option (ℤ × ℤ)
  parse_daily_update_time s = parse_pieces (lib.split_colon s)

  -- `int64(5000)`, or the deprecated period in seconds where there is one.
  abbrev pub default_period : Option lib.Float → ℤ
  default_period none = pos 5000
  default_period (some s) = if lib.float_is_zero s then pos 5000 else lib.int64_of_millis s

  unfoldable pub period_or_default : Option ℤ → Option lib.Float → Option ℤ
  period_or_default none update_period_s = some (default_period update_period_s)
  period_or_default (some p) update_period_s = some p

  unfoldable pub valid_time_or_default : ℕ → String → String
  unfolding parse_daily_update_time
  valid_time_or_default position time =
      let mins = 3 * 60 + 10 * position in
      elim (parse_daily_update_time time) [
        | none ↦ lib.sprintf_time (mins / 60) (mins % 60)
        | some _ ↦ if time == "" then lib.sprintf_time (mins / 60) (mins % 60) else time
      ]

  -- The time zone of the first agency that has one and whose time zone loads, and "" if none has.
  unfoldable pub agency_timezone : List ApiAgency → String
  agency_timezone [] = ""
  agency_timezone (agency ∷ agencies) =
      let later = agency_timezone agencies in
      if agency.timezone == ""
      then later
      else if lib.load_location agency.timezone
      then agency.timezone
      else later

  abbrev pub or_utc : String → String
  or_utc tz = if tz == "" then "UTC" else tz

  unfoldable pub valid_timezone_or_default : List ApiAgency → String → String
  unfolding agency_timezone
  valid_timezone_or_default agencies tz =
      if tz == ""
      then or_utc (agency_timezone agencies)
      else if lib.load_location tz
      then tz
      else or_utc (agency_timezone agencies)

  abbrev pub policy_or_default : String → SchedulingPolicy → SchedulingPolicy
  policy_or_default feed_type policy_default =
      if feed_type == gtfs_realtime then policy_periodic else policy_daily
  policy_or_default feed_type policy = policy

  -- The `switch`, by the policy.
  unfoldable pub fill_fields :
      SchedulingPolicy → ℕ → List ApiAgency → FeedConfig lib.Float → FeedConfig lib.Float
  unfolding valid_time_or_default valid_timezone_or_default period_or_default
  fill_fields policy_periodic position agencies fc = record fc {
    periodic_update_period_ms = period_or_default fc.periodic_update_period_ms fc.update_period_s;
  }
  fill_fields policy_daily position agencies fc = record fc {
    daily_update_time = valid_time_or_default position fc.daily_update_time;
    daily_update_timezone = valid_timezone_or_default agencies fc.daily_update_timezone;
  }
  fill_fields policy position agencies fc = fc

  abbrev pub resolve_policy : FeedConfig lib.Float → FeedConfig lib.Float
  resolve_policy fc = record fc {
    scheduling_policy = policy_or_default fc.feed_type fc.scheduling_policy;
  }

  unfoldable pub normalize_scheduling_policy :
      FeedConfig lib.Float → ℕ → List ApiAgency → FeedConfig lib.Float
  unfolding normalize_feed_config fill_fields
  normalize_scheduling_policy fc position agencies =
      let resolved = resolve_policy (normalize_feed_config fc) in
      fill_fields resolved.scheduling_policy position agencies resolved
