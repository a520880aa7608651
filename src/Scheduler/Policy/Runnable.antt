-- ===== src/Scheduler/Policy/Runnable.antt =====
-- What `NormalizeSchedulingPolicy` of internal/scheduler/scheduler.go guarantees.
use Prim.{tt}
use Prim.Native.String.{String}
use transiter.Base.{
  Bool-cases, List, Option, Option-cases, [], arith, false, if◌then◌else◌, inl, inr, nat_keys, none,
  refl, some, string_keys, true, ℕ, ◌%◌, ◌*◌, ◌+◌, ◌/◌, ◌<◌, ◌==◌, ◌∷◌, ◌≡◌, ◌≢◌, ◌⊎◌,
}
use transiter.Base.Int.{int_keys, pos, ℤ}
use transiter.Scheduler.Policy.{
  ApiAgency, GoTime, agency_timezone, default_period, fill_fields, normalize_scheduling_policy,
  or_utc, parse_daily_update_time, period_or_default, policy_or_default, resolve_policy,
  valid_time_or_default, valid_timezone_or_default,
}
use transiter.ServiceMaps.Reverse.{set}
use transiter.Update.Config.{
  FeedConfig, SchedulingPolicy, gtfs_realtime, normalize_feed_config, policy_daily, policy_default,
  policy_none, policy_periodic,
}

module _ (lib : GoTime) where
  -- What is relied on of fmt, strings and strconv: "%02d:%02d" splits at its colon into the texts of
  -- two numbers, and Atoi reads the text of a number that an int64 holds.
  pub record TimeLaws : Type 0 where
    pub pad : ℕ → String
    pub splits : (h m : ℕ) → lib.split_colon (lib.sprintf_time h m) ≡ pad h ∷ pad m ∷ []
    pub reads :
        (n : ℕ) → n < 9_223_372_036_854_775_808 → lib.atoi (lib.trim_space (pad n)) ≡ some (pos n)

  -- Ten minutes for each position after 3:00.
  abbrev pub default_time : ℕ → ℤ × ℤ
  default_time position = (pos (3 + position / 6), pos (position % 6 * 10))

  abbrev pub or_default : Option (ℤ × ℤ) → ℕ → ℤ × ℤ
  or_default none position = default_time position
  or_default (some t) position = t

  -- The given time where there is one that parses.
  abbrev pub intended_time : ℕ → String → ℤ × ℤ
  intended_time position given =
      if given == ""
      then default_time position
      else or_default (parse_daily_update_time lib given) position

  -- The guarantees of the comment on `NormalizeSchedulingPolicy`, for the position of the feed and
  -- the time that it was given.
  abbrev pub IsRunnable : ℕ → String → SchedulingPolicy → FeedConfig lib.Float → Type 0
  IsRunnable position given policy_default fc = ⊥
  IsRunnable position given policy_none fc = Unit
  IsRunnable position given policy_periodic fc = (p : ℤ) × (fc.periodic_update_period_ms ≡ some p)
  IsRunnable position given policy_daily fc =
      (parse_daily_update_time lib fc.daily_update_time ≡ some (intended_time position given))
      × (lib.load_location fc.daily_update_timezone ≡ true)
      × (fc.daily_update_timezone ≢ "")

  default_time_lem :
      (laws : TimeLaws) (position : ℕ)
      → 3 * 60 + 10 * position < 9_223_372_036_854_775_808
      → parse_daily_update_time lib
          (lib.sprintf_time ((3 * 60 + 10 * position) / 60) ((3 * 60 + 10 * position) % 60))
        ≡ some (default_time position)
  unfolding parse_daily_update_time
  default_time_lem laws position bounded =
      let mins = 3 * 60 + 10 * position in
      let hour : mins / 60 ≡ 3 + position / 6 = omega arith in
      let minute : mins % 60 ≡ position % 6 * 10 = omega arith in
      let read_hour = laws.reads (mins / 60) (omega (arith, bounded)) in
      let read_minute = laws.reads (mins % 60) (omega arith) in
      rw (laws.splits (mins / 60) (mins % 60), read_hour, read_minute) (rw (hour, minute) refl)

  valid_time_lem :
      (position : ℕ) (time : String)
      → TimeLaws
      → 3 * 60 + 10 * position < 9_223_372_036_854_775_808
      → parse_daily_update_time lib (valid_time_or_default lib position time)
        ≡ some (intended_time position time)
  unfolding valid_time_or_default
  valid_time_lem position time laws bounded =
      let mins = 3 * 60 + 10 * position in
      let printed = lib.sprintf_time (mins / 60) (mins % 60) in
      let default = default_time_lem laws position bounded in
      elim (Option-cases (parse_daily_update_time lib time)) [
        | inl bad ↦
            let chosen : valid_time_or_default lib position time ≡ printed = ground (arith, bad) in
            rw chosen (elim (Bool-cases (time == "")) [
              | inl empty ↦ rw empty default
              | inr given ↦ rw (given, bad) default
            ])
        | inr (t, good) ↦ elim (Bool-cases (time == "")) [
          | inl empty ↦
              let chosen : valid_time_or_default lib position time ≡ printed =
                ground (arith, good, empty) in
              rw chosen (rw empty default)
          | inr given ↦
              let chosen : valid_time_or_default lib position time ≡ time =
                ground (arith, good, given) in
              rw chosen (rw (given, good) refl)
        ]
      ]

  abbrev Loads : String → Type 0
  Loads tz = (lib.load_location tz ≡ true) × (tz ≢ "")

  agency_timezone_lem :
      (agencies : List ApiAgency)
      → (agency_timezone lib agencies ≡ "") ⊎ Loads (agency_timezone lib agencies)
  unfolding agency_timezone
  agency_timezone_lem [] = inl refl
  agency_timezone_lem (agency ∷ agencies) =
      let later = agency_timezone_lem agencies in
      elim (Bool-cases (agency.timezone == "")) [
        | inl empty ↦ rw empty later
        | inr given ↦ elim (Bool-cases (lib.load_location agency.timezone)) [
          | inl loads ↦
              inr (ground arith, λ e. ground (arith, string_keys.same_iff agency.timezone ""))
          | inr fails ↦ rw (given, fails) later
        ]
      ]

  or_utc-Loads :
      (tz : String)
      → lib.load_location "UTC" ≡ true
      → ((tz ≡ "") ⊎ Loads tz)
      → Loads (or_utc lib tz)
  or_utc-Loads tz utc (inl e) =
      rw e (utc, λ f. absurd (ground (arith, string_keys.same_iff "UTC" "")))
  or_utc-Loads tz utc (inr (loads, ne)) =
      let given : (tz == "") ≡ false = ground (arith, string_keys.same_iff tz "") in
      rw given (loads, ne)

  valid_timezone_lem :
      (agencies : List ApiAgency) (tz : String)
      → lib.load_location "UTC" ≡ true
      → Loads (valid_timezone_or_default lib agencies tz)
  unfolding valid_timezone_or_default
  valid_timezone_lem agencies tz utc =
      let default =
        or_utc-Loads (agency_timezone lib agencies) utc (agency_timezone_lem agencies) in
      elim (Bool-cases (tz == "")) [
        | inl empty ↦ rw empty default
        | inr given ↦ elim (Bool-cases (lib.load_location tz)) [
          | inl loads ↦ rw (given, loads) (loads, λ e. ground (arith, string_keys.same_iff tz ""))
          | inr fails ↦ rw (given, fails) default
        ]
      ]

  fill_fields-IsRunnable :
      (policy : SchedulingPolicy) (position : ℕ) (agencies : List ApiAgency)
      (fc : FeedConfig lib.Float)
      → TimeLaws
      → 3 * 60 + 10 * position < 9_223_372_036_854_775_808
      → lib.load_location "UTC" ≡ true
      → policy ≢ policy_default
      → IsRunnable position fc.daily_update_time policy
          (fill_fields lib policy position agencies fc)
  unfolding fill_fields period_or_default
  fill_fields-IsRunnable policy_default position agencies fc laws bounded utc ne = ne refl
  fill_fields-IsRunnable policy_none position agencies fc laws bounded utc ne = tt
  fill_fields-IsRunnable policy_periodic position agencies fc laws bounded utc ne =
      elim (Option-cases fc.periodic_update_period_ms) [
        | inl unset ↦ (default_period lib fc.update_period_s, rw unset)
        | inr (p, set) ↦ (p, rw set)
      ]
  fill_fields-IsRunnable policy_daily position agencies fc laws bounded utc ne =
      let (loads, given) = valid_timezone_lem agencies fc.daily_update_timezone utc in
      (valid_time_lem position fc.daily_update_time laws bounded, loads, given)

  policy_or_default_lem :
      (feed_type : String) (policy : SchedulingPolicy)
      → policy_or_default lib feed_type policy ≢ policy_default
  policy_or_default_lem feed_type policy_default = elim (Bool-cases (feed_type == gtfs_realtime)) [
    | inl r ↦ λ e. ground arith
    | inr r ↦ λ e. ground arith
  ]
  policy_or_default_lem feed_type policy_periodic = λ e. cc e
  policy_or_default_lem feed_type policy_daily = λ e. cc e
  policy_or_default_lem feed_type policy_none = λ e. cc e

  fill_fields-policy :
      (policy : SchedulingPolicy) (position : ℕ) (agencies : List ApiAgency)
      (fc : FeedConfig lib.Float)
      → (fill_fields lib policy position agencies fc).scheduling_policy ≡ fc.scheduling_policy
  unfolding fill_fields
  fill_fields-policy policy_default position agencies fc = refl
  fill_fields-policy policy_none position agencies fc = refl
  fill_fields-policy policy_periodic position agencies fc = refl
  fill_fields-policy policy_daily position agencies fc = refl

  -- Where formatted times split and read back, the zone UTC loads and the minutes of the default time
  -- do not overflow, a normalized configuration does not have the default policy; with the periodic
  -- policy it has a period; with the daily policy it has a time zone that loads and is not empty, and
  -- a time that parses: to the given one where that is not empty and parses, and otherwise to 3:00 and
  -- ten minutes for each position.
  pub normalize_scheduling_policy-IsRunnable :
      (fc : FeedConfig lib.Float) (position : ℕ) (agencies : List ApiAgency)
      → TimeLaws
      → 3 * 60 + 10 * position < 9_223_372_036_854_775_808
      → lib.load_location "UTC" ≡ true
      → IsRunnable position fc.daily_update_time
          (normalize_scheduling_policy lib fc position agencies).scheduling_policy
          (normalize_scheduling_policy lib fc position agencies)
  unfolding normalize_scheduling_policy
  normalize_scheduling_policy-IsRunnable fc position agencies laws bounded utc =
      let resolved = resolve_policy lib (normalize_feed_config fc) in
      let policy = resolved.scheduling_policy in
      rw (fill_fields-policy policy position agencies resolved) (
        fill_fields-IsRunnable policy position agencies resolved laws bounded utc
          (policy_or_default_lem resolved.feed_type (normalize_feed_config fc).scheduling_policy))
