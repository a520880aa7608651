-- ===== src/Public/Alerts/Tests.antt =====
-- An alert with a period that has ended and one that has not.
use Prim.Native.String.{String}
use transiter.Base.{List, [], ltb, map, nat_keys, none, refl, some, string_keys, ℕ, ◌∷◌, ◌≡◌}
use transiter.Base.Int.{int_keys, pos}
use transiter.Public.Alerts.{
  ActivePeriodRow, AlertReads, ApiAlert, DbAlert, convert_alerts, get_alert, period_of,
}
use transiter.Public.Alerts.Periods.{convert_alerts-periods}
use transiter.Public.Results.{answer, found, get_system, no_rows, query_error, reply}
use transiter.Public.Stops.Lifting.{items_at}
use transiter.Public.Tests.{generator, go, system_a}

abbrev period_rows : List (ActivePeriodRow ℕ)
period_rows =
    record { pk = 4; starts_at = some 1; ends_at = some 3 }
    ∷ record { pk = 4; starts_at = some 6; ends_at = none }
    ∷ record { pk = 4; starts_at = some 9; ends_at = none }
    ∷ []

abbrev an_alert : DbAlert
an_alert = record {
  pk = 4;
  id = "alert";
  cause = "STRIKE";
  effect = "DETOUR";
  header = "";
  description = "";
  url = "";
}

abbrev alert_reads : AlertReads ℕ
alert_reads = record {
  query_system = λ id. answer system_a;
  alerts_in_system = λ pk. answer (an_alert ∷ []);
  alerts_by_ids = λ pk ids. answer (an_alert ∷ []);
  alert_in_system = λ pk id. query_error no_rows;
  active_periods = λ pks. answer period_rows;
}

abbrev no_text : String → List (String × String)
no_text s = []

-- At time 7 the period from 6 on is the current one.
convert_alerts-periods_example :
    (shown : List ApiAlert) × (convert_alerts go ltb 7 no_text generator alert_reads "system"
        (an_alert ∷ [])
      ≡ reply shown)
    × (map (λ a. a.current_active_period) shown
        ≡ some (record { starts_at = some (pos 6); ends_at = none }) ∷ [])
    × (map (λ a. a.all_active_periods) shown
        ≡ map (λ a. items_at (λ r. r.pk) (period_of go ltb 7) a.pk period_rows) (an_alert ∷ []))
convert_alerts-periods_example =
    convert_alerts-periods go ltb 7 no_text generator alert_reads "system" (an_alert ∷ [])
      period_rows refl

-- An alert that is not known is a nil alert, not an error.
missing_alert : get_alert go ltb 7 no_text generator alert_reads "system" "other" ≡ reply none
unfolding get_alert get_system found
missing_alert = refl
