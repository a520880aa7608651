-- ===== src/ServiceMaps/Included.antt =====
-- `isIncludedTrip`: the trips that a configuration lets into its service maps.
use Prim.{tt}
use Prim.Native.String.{String}
use transiter.Base.{
  Bool, List, List-cases, Option, [], ap, arith, false, if◌then◌else◌, inl, inr, nat_keys, none,
  not, refl, some, string_keys, sym, true, ◌++◌, ◌↔◌, ◌∙◌, ◌∷◌, ◌≡◌, ◌≢◌, ◌⊎◌,
}
use transiter.Base.Int.{int_keys, int_same_iff, ltb_ℤ, ℤ, ◌<ℤ◌}
use transiter.Base.Maps.{Map}
use transiter.Realtime.Alerts.Partition.{ids}
use transiter.ServiceMaps.Days.{holds}
use transiter.ServiceMaps.Types.{
  DirectionId, GoLib, ScheduledTrip, ServiceMapConfig, StaticOptions, StopTime,
  direction_unspecified, options_of,
}

abbrev pub last_stop_time : StopTime → List StopTime → StopTime
last_stop_time s [] = s
last_stop_time s (t ∷ ts) = last_stop_time t ts

abbrev pub is_unspecified : DirectionId → Bool
is_unspecified direction_unspecified = true
is_unspecified _ = false

-- `opt != nil && c(*opt) < t` and `opt != nil && c(*opt) > t`.
abbrev pub set_below : (lib : GoLib) → Option lib.Float → ℤ → Bool
set_below lib none t = false
set_below lib (some h) t = ltb_ℤ (lib.hours h) t

abbrev pub set_above : (lib : GoLib) → Option lib.Float → ℤ → Bool
set_above lib none t = false
set_above lib (some h) t = ltb_ℤ t (lib.hours h)

-- The checks on a trip with at least one stop time.
unfoldable pub is_in_window : (lib : GoLib) → StaticOptions lib.Float → ℤ → ℤ → Bool
is_in_window lib opts start_time end_time =
    if set_below lib opts.starts_earlier_than start_time
    then false
    else if set_above lib opts.starts_later_than start_time
    then false
    else if set_below lib opts.ends_earlier_than end_time
    then false
    else if set_above lib opts.ends_later_than end_time
    then false
    else true

unfoldable pub is_included_trip :
    (lib : GoLib) → ServiceMapConfig lib.Float → ScheduledTrip → Map String Bool → Bool
unfolding is_in_window
is_included_trip lib smc trip included_service_ids =
    if is_unspecified trip.direction_id
    then false
    else if not (holds included_service_ids trip.service.id)
    then false
    else elim trip.stop_times [
      | [] ↦ false
      | first ∷ rest ↦
          is_in_window lib (options_of smc) first.arrival_time
            (last_stop_time first rest).arrival_time
    ]

-- A time is before a bound, as api/admin.proto says, or exactly at it; a bound that is not set holds
-- of every time.
abbrev AtMost : (lib : GoLib) → ℤ → Option lib.Float → Type 0
AtMost lib t none = Unit
AtMost lib t (some h) = (t <ℤ lib.hours h) ⊎ (t ≡ lib.hours h)

abbrev AtLeast : (lib : GoLib) → ℤ → Option lib.Float → Type 0
AtLeast lib t none = Unit
AtLeast lib t (some h) = (lib.hours h <ℤ t) ⊎ (t ≡ lib.hours h)

pub record IsIncluded (lib : GoLib) (opts : StaticOptions lib.Float) (trip : ScheduledTrip)
    (ids : Map String Bool) : Type 0 where
  pub first : StopTime
  pub rest : List StopTime
  pub before : List StopTime
  pub last : StopTime
  pub starts : trip.stop_times ≡ first ∷ rest
  pub ends : trip.stop_times ≡ before ++ last ∷ []
  pub directed : trip.direction_id ≢ direction_unspecified
  pub serviced : holds ids trip.service.id ≡ true
  pub starts_early : AtMost lib first.arrival_time opts.starts_earlier_than
  pub starts_late : AtLeast lib first.arrival_time opts.starts_later_than
  pub ends_early : AtMost lib last.arrival_time opts.ends_earlier_than
  pub ends_late : AtLeast lib last.arrival_time opts.ends_later_than

ltb_ℤ-false : (a b : ℤ) → (ltb_ℤ a b ≡ false) ↔ ((b <ℤ a) ⊎ (b ≡ a))
ltb_ℤ-false a b = ground (arith, int_same_iff a b)

set_below_iff :
    (lib : GoLib) (o : Option lib.Float) (t : ℤ) → (set_below lib o t ≡ false) ↔ AtMost lib t o
set_below_iff lib none t = (λ _. tt, λ _. refl)
set_below_iff lib (some h) t = ltb_ℤ-false (lib.hours h) t

set_above_iff :
    (lib : GoLib) (o : Option lib.Float) (t : ℤ) → (set_above lib o t ≡ false) ↔ AtLeast lib t o
set_above_iff lib none t = (λ _. tt, λ _. refl)
set_above_iff lib (some h) t =
    let (to, from) = ltb_ℤ-false t (lib.hours h) in
    (
      λ e. elim (to e) [ inl later ↦ inl later | inr same ↦ inr (sym same) ],
      λ o. from (elim o [ inl later ↦ inl later | inr same ↦ inr (sym same) ]),
    )

is_in_window_iff :
    (lib : GoLib) (opts : StaticOptions lib.Float) (s e : ℤ)
    → (is_in_window lib opts s e ≡ true) ↔ (
        AtMost lib s opts.starts_earlier_than
        × AtLeast lib s opts.starts_later_than
        × AtMost lib e opts.ends_earlier_than
        × AtLeast lib e opts.ends_later_than)
unfolding is_in_window
is_in_window_iff lib opts s e = ground (
  arith,
  set_below_iff lib opts.starts_earlier_than s,
  set_above_iff lib opts.starts_later_than s,
  set_below_iff lib opts.ends_earlier_than e,
  set_above_iff lib opts.ends_later_than e,
)

last_stop_time-split :
    (s : StopTime) (ts : List StopTime)
    → (before : List StopTime) × (s ∷ ts ≡ before ++ last_stop_time s ts ∷ [])
last_stop_time-split s [] = ([], refl)
last_stop_time-split s (t ∷ ts) =
    let (before, e) = last_stop_time-split t ts in (s ∷ before, ap (λ us. s ∷ us) e)

last_stop_time-eq :
    (s : StopTime) (ts before : List StopTime) (last : StopTime)
    → s ∷ ts ≡ before ++ last ∷ []
    → last_stop_time s ts ≡ last
last_stop_time-eq s [] [] last e = cc e
last_stop_time-eq s (t ∷ ts) [] last e = absurd (cc e)
last_stop_time-eq s [] (b ∷ []) last e = absurd (cc e)
last_stop_time-eq s [] (b ∷ c ∷ before) last e = absurd (cc e)
last_stop_time-eq s (t ∷ ts) (b ∷ before) last e = last_stop_time-eq t ts before last (cc e)

is_unspecified_iff : (d : DirectionId) → (is_unspecified d ≡ false) ↔ (d ≢ direction_unspecified)
is_unspecified_iff d = ground arith

-- `isIncludedTrip` accepts a trip exactly if it has a direction, an included service and a stop
-- time, and each bound that is set holds of the arrival at its first or last stop as api/admin.proto
-- says or is exactly that arrival.
pub is_included_trip_iff :
    (lib : GoLib) (smc : ServiceMapConfig lib.Float) (trip : ScheduledTrip) (ids : Map String Bool)
    → (is_included_trip lib smc trip ids ≡ true) ↔ IsIncluded lib (options_of smc) trip ids
unfolding is_included_trip
is_included_trip_iff lib smc trip ids = (to, from)
  where
    window : (first : StopTime) (rest : List StopTime) → Bool
    window first rest =
        is_in_window lib (options_of smc) first.arrival_time
          (last_stop_time first rest).arrival_time

    to : is_included_trip lib smc trip ids ≡ true → IsIncluded lib (options_of smc) trip ids
    to h = elim (List-cases trip.stop_times) [
      | inl empty ↦ absurd (ground arith)
      | inr (first, rest, stops) ↦
          let bounds : window first rest ≡ true = ground arith in
          let split = last_stop_time-split first rest in
          let (a, b, c, d) = (is_in_window_iff lib (options_of smc) _ _).0 bounds in
          record {
            first = first;
            rest = rest;
            before = split.0;
            last = last_stop_time first rest;
            starts = stops;
            ends = stops ∙ split.1;
            directed = (is_unspecified_iff trip.direction_id).0 (ground arith);
            serviced = ground arith;
            starts_early = a;
            starts_late = b;
            ends_early = c;
            ends_late = d;
          }
    ]

    from : IsIncluded lib (options_of smc) trip ids → is_included_trip lib smc trip ids ≡ true
    from i =
        let last : last_stop_time i.first i.rest ≡ i.last =
          last_stop_time-eq i.first i.rest i.before i.last (sym i.starts ∙ i.ends) in
        let bounds : window i.first i.rest ≡ true = rw last (
          (is_in_window_iff lib (options_of smc) _ _).1
            (i.starts_early, i.starts_late, i.ends_early, i.ends_late)) in
        let directed = (is_unspecified_iff trip.direction_id).1 i.directed in
        ground (arith, bounds, directed, i.serviced, i.starts)
