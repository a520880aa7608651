-- ===== src/Public/Alerts/Periods.antt =====
-- The active periods of alerts of internal/public/endpoints/alert.go.
use Prim.Native.String.{String}
use mathlib.Core.List.{append-nil}
use transiter.Base.{
  Bool, List, Option, Option-cases, [], ap, arith, if◌then◌else◌, inl, inr, map, nat_keys, none,
  not, refl, some, string_keys, sym, true, ℕ, ◌&&◌, ◌++◌, ◌==◌, ◌∙◌, ◌∷◌, ◌≡◌,
}
use transiter.Base.Int.{int_keys}
use transiter.Base.Maps.{insert, lookup, lookup-insert}
use transiter.Public.Alerts.{
  ActivePeriod, ActivePeriodRow, ActivePeriods, AlertReads, ApiAlert, DbAlert, api_alert,
  build_active_periods, convert_alerts, is_out_of_period, period_of,
}
use transiter.Public.Reference.{Generator, PublicLibrary}
use transiter.Public.Results.{answer, reply}
use transiter.Public.Stops.Lifting.{items_at, list_at-append_at}
use transiter.Public.Stops.RawData.{append_at, list_at}

cons_eq {ℓ} : {A : Type ℓ} {x y : A} {xs ys : List A} → x ≡ y → xs ≡ ys → x ∷ xs ≡ y ∷ ys
cons_eq {x = x} {y = y} {xs = xs} p q = ap (λ z. z ∷ xs) p ∙ ap (λ zs. y ∷ zs) q

module _ (lib : PublicLibrary) (before : lib.Time → lib.Time → Bool) (now : lib.Time) where
  -- A period has begun unless it starts after now, and has not ended unless it ends before now.
  abbrev pub has_begun : Option lib.Time → Bool
  has_begun none = true
  has_begun (some starts_at) = not (before now starts_at)

  abbrev pub has_not_ended : Option lib.Time → Bool
  has_not_ended none = true
  has_not_ended (some ends_at) = not (before ends_at now)

  is_out_of_period_lem :
      (row : ActivePeriodRow lib.Time)
      → is_out_of_period lib before now row
        ≡ not (has_begun row.starts_at && has_not_ended row.ends_at)
  is_out_of_period_lem row = elim (Option-cases row.starts_at) [
    | inl unbounded ↦ elim (Option-cases row.ends_at) [
      | inl unending ↦ rw (unbounded, unending) refl
      | inr (ends, set_end) ↦ rw (unbounded, set_end) (ground arith)
    ]
    | inr (starts, set_start) ↦ elim (Option-cases row.ends_at) [
      | inl unending ↦ rw (set_start, unending) (ground arith)
      | inr (ends, set_end) ↦ rw (set_start, set_end) (ground arith)
    ]
  ]

  -- The last row of an alert whose period has begun and has not ended.
  abbrev pub last_active : ℕ → List (ActivePeriodRow lib.Time) → Option ActivePeriod
  last_active pk [] = none
  last_active pk (row ∷ later) =
      let rest = last_active pk later in
      elim rest [
        | some period ↦ some period
        | none ↦
            if row.pk == pk && (has_begun row.starts_at && has_not_ended row.ends_at)
            then some (period_of lib before now row)
            else none
      ]

  abbrev pub or_first : Option ActivePeriod → Option ActivePeriod → Option ActivePeriod
  or_first none earlier = earlier
  or_first (some period) earlier = some period

  or_first-none : (period : Option ActivePeriod) → or_first period none ≡ period
  or_first-none none = refl
  or_first-none (some period) = refl

  lookup-build_active_periods :
      (found_rows : List (ActivePeriodRow lib.Time)) (p : ActivePeriods) (pk : ℕ)
      → lookup pk (build_active_periods lib before now found_rows p).current
        ≡ or_first (last_active pk found_rows) (lookup pk p.current)
  unfolding build_active_periods
  lookup-build_active_periods [] p pk = refl
  lookup-build_active_periods (row ∷ later) p pk =
      let period = period_of lib before now row in
      let step : ActivePeriods = record {
        current =
            if is_out_of_period lib before now row
            then p.current
            else insert row.pk period p.current;
        all = append_at row.pk period p.all;
      } in
      lookup-build_active_periods later step pk
      ∙ ground (arith, lookup-insert row.pk pk period p.current, is_out_of_period_lem row)

  list_at-build_active_periods :
      (found_rows : List (ActivePeriodRow lib.Time)) (p : ActivePeriods) (pk : ℕ)
      → list_at pk (build_active_periods lib before now found_rows p).all
        ≡ list_at pk p.all ++ items_at (λ r. r.pk) (period_of lib before now) pk found_rows
  unfolding build_active_periods append_at
  list_at-build_active_periods [] p pk = sym (append-nil (list_at pk p.all))
  list_at-build_active_periods (row ∷ later) p pk =
      let period = period_of lib before now row in
      let step : ActivePeriods = record {
        current =
            if is_out_of_period lib before now row
            then p.current
            else insert row.pk period p.current;
        all = append_at row.pk period p.all;
      } in
      list_at-build_active_periods later step pk
      ∙ list_at-append_at row.pk pk period p.all
          (items_at (λ r. r.pk) (period_of lib before now) pk later)

  module _ (text_of : String → List (String × String)) (g : Generator)
      (q : AlertReads lib.Time) where
    abbrev with_periods : String → List (ActivePeriodRow lib.Time) → DbAlert → ApiAlert
    unfolding api_alert build_active_periods
    with_periods system_id found_rows =
        api_alert lib before now text_of g q system_id
          (build_active_periods lib before now found_rows (record { current = []; all = [] }))

    currents :
        (system_id : String) (found_rows : List (ActivePeriodRow lib.Time)) (alerts : List DbAlert)
        → map (λ a. a.current_active_period) (map (with_periods system_id found_rows) alerts)
          ≡ map (λ a. last_active a.pk found_rows) alerts
    unfolding with_periods api_alert lookup
    currents system_id found_rows [] = refl
    currents system_id found_rows (a ∷ alerts) =
        cons_eq
          (lookup-build_active_periods found_rows (record { current = []; all = [] }) a.pk
            ∙ or_first-none (last_active a.pk found_rows))
          (currents system_id found_rows alerts)

    all_periods :
        (system_id : String) (found_rows : List (ActivePeriodRow lib.Time)) (alerts : List DbAlert)
        → map (λ a. a.all_active_periods) (map (with_periods system_id found_rows) alerts)
          ≡ map (λ a. items_at (λ r. r.pk) (period_of lib before now) a.pk found_rows) alerts
    unfolding with_periods api_alert lookup
    all_periods system_id found_rows [] = refl
    all_periods system_id found_rows (a ∷ alerts) =
        cons_eq (list_at-build_active_periods found_rows (record { current = []; all = [] }) a.pk)
          (all_periods system_id found_rows alerts)

    -- When the query of the active periods succeeds, each alert of a reply has all of its periods in
    -- the order of the rows, and as its current period the one of its last row that has begun, or
    -- has no start, and has not ended, or has no end.
    pub convert_alerts-periods :
        (system_id : String) (alerts : List DbAlert) (found_rows : List (ActivePeriodRow lib.Time))
        (read : q.active_periods (map (λ a. a.pk) alerts) ≡ answer found_rows)
        → (shown : List ApiAlert) × (convert_alerts lib before now text_of g q system_id alerts
            ≡ reply shown)
          × (map (λ a. a.current_active_period) shown
              ≡ map (λ a. last_active a.pk found_rows) alerts)
          × (map (λ a. a.all_active_periods) shown
              ≡ map (λ a. items_at (λ r. r.pk) (period_of lib before now) a.pk found_rows) alerts)
    unfolding convert_alerts
    convert_alerts-periods system_id alerts found_rows read =
        let periods =
          build_active_periods lib before now found_rows (record { current = []; all = [] }) in
        (
          map (api_alert lib before now text_of g q system_id periods) alerts,
          rw read refl,
          currents system_id found_rows alerts,
          all_periods system_id found_rows alerts,
        )
