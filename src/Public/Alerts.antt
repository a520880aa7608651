-- ===== src/Public/Alerts.antt =====
-- The handlers of internal/public/endpoints/alert.go.
pub mod Periods
mod Tests
use Prim.Native.String.{String}
use transiter.Base.{
  Bool, List, Option, [], false, if◌then◌else◌, map, nat_keys, none, some, string_keys, ℕ, ◌||◌,
  ◌∷◌,
}
use transiter.Base.Int.{int_keys, ℤ}
use transiter.Base.Maps.{Map, insert, lookup}
use transiter.Public.Reference.{
  Generator, PublicLibrary, Resource, SystemReference, alert_reference, system_reference,
}
use transiter.Public.Results.{
  DbSystem, Queried, Response, and_then, answer, get_system, of_query, query_error, reply,
}
use transiter.Public.Stops.Handlers.{first_of}
use transiter.Public.Stops.RawData.{append_at, list_at}
use transiter.Realtime.Alerts.Partition.{ids}

-- db.Alert
pub record DbAlert : Type 0 where
  pub pk : ℕ
  pub id : String
  pub cause : String
  pub effect : String
  pub header : String
  pub description : String
  pub url : String

-- db.ListActivePeriodsForAlertsRow
pub record ActivePeriodRow (Time : Type 0) : Type 0 where
  pub pk : ℕ
  pub starts_at : Option Time
  pub ends_at : Option Time

-- api.Alert_ActivePeriod, in Unix seconds
pub record ActivePeriod : Type 0 where
  pub starts_at : Option ℤ
  pub ends_at : Option ℤ

-- api.Alert; a text is its language and what it says.
pub record ApiAlert : Type 0 where
  pub id : String
  pub resource : Resource
  pub system : SystemReference
  pub cause : ℕ
  pub effect : ℕ
  pub current_active_period : Option ActivePeriod
  pub all_active_periods : List ActivePeriod
  pub header : List (String × String)
  pub description : List (String × String)
  pub url : List (String × String)

pub record ActivePeriods : Type 0 where
  pub current : Map ℕ ActivePeriod
  pub all : Map ℕ (List ActivePeriod)

pub record AlertReads (Time : Type 0) : Type 0 where
  pub query_system : String → Queried DbSystem
  pub alerts_in_system : ℕ → Queried (List DbAlert)
  pub alerts_by_ids : ℕ → List String → Queried (List DbAlert)
  pub alert_in_system : ℕ → String → Queried DbAlert
  pub active_periods : List ℕ → Queried (List (ActivePeriodRow Time))

-- `before` is time.Time.Before.
module _ (lib : PublicLibrary) (before : lib.Time → lib.Time → Bool) (now : lib.Time) where
  abbrev pub is_set_and {ℓ} : {A : Type ℓ} → (A → Bool) → Option A → Bool
  is_set_and p none = false
  is_set_and p (some a) = p a

  -- `now.Before(StartsAt)` or `now.After(EndsAt)`, where they are set
  abbrev pub is_out_of_period : ActivePeriodRow lib.Time → Bool
  is_out_of_period row =
      is_set_and (λ t. before now t) row.starts_at || is_set_and (λ t. before t now) row.ends_at

  abbrev pub seconds_of : Option lib.Time → Option ℤ
  seconds_of none = none
  seconds_of (some t) = some (lib.unix t)

  abbrev pub period_of : ActivePeriodRow lib.Time → ActivePeriod
  period_of row = record { starts_at = seconds_of row.starts_at; ends_at = seconds_of row.ends_at }

  -- The loop of buildActivePeriods.
  unfoldable pub build_active_periods :
      List (ActivePeriodRow lib.Time) → ActivePeriods → ActivePeriods
  unfolding append_at
  build_active_periods [] p = p
  build_active_periods (row ∷ later) p = build_active_periods later (record {
    current = if is_out_of_period row then p.current else insert row.pk (period_of row) p.current;
    all = append_at row.pk (period_of row) p.all;
  })

  -- `text_of` is convert.AlertText, which reads JSON.
  module _ (text_of : String → List (String × String)) (g : Generator)
      (q : AlertReads lib.Time) where
    abbrev pub api_alert : String → ActivePeriods → DbAlert → ApiAlert
    unfolding alert_reference system_reference
    api_alert system_id periods alert = record {
      id = alert.id;
      resource = (alert_reference lib g alert.id system_id alert.cause alert.effect).resource;
      system = system_reference lib g system_id;
      cause = lib.alert_cause alert.cause;
      effect = lib.alert_effect alert.effect;
      current_active_period = lookup alert.pk periods.current;
      all_active_periods = list_at alert.pk periods.all;
      header = text_of alert.header;
      description = text_of alert.description;
      url = text_of alert.url;
    }

    unfoldable pub convert_alerts : String → List DbAlert → Response (List ApiAlert)
    unfolding build_active_periods api_alert
    convert_alerts system_id alerts =
        and_then (of_query (q.active_periods (map (λ a. a.pk) alerts))) (λ found_periods. reply (
          map
            (api_alert system_id
              (build_active_periods found_periods (record { current = []; all = [] })))
            alerts))

    abbrev pub requested_alerts : ℕ → List String → Queried (List DbAlert)
    requested_alerts system_pk [] = q.alerts_in_system system_pk
    requested_alerts system_pk (id ∷ ids) = q.alerts_by_ids system_pk (id ∷ ids)

    unfoldable pub list_alerts : String → List String → Response (List ApiAlert)
    unfolding get_system convert_alerts
    list_alerts system_id alert_ids =
        and_then (get_system lib.quoted q.query_system system_id) (λ system.
          and_then (of_query (requested_alerts system.pk alert_ids))
            (λ alerts. convert_alerts system.id alerts))

    -- The handler passes nil to noRowsToNotFound, which gives it back: on an error of the query the
    -- reply is a nil alert without an error.
    abbrev pub alert_or_nil : DbSystem → Queried DbAlert → Response (Option ApiAlert)
    unfolding convert_alerts first_of
    alert_or_nil system (query_error e) = reply none
    alert_or_nil system (answer alert) =
        and_then (and_then (convert_alerts system.id (alert ∷ [])) first_of) (λ a. reply (some a))

    unfoldable pub get_alert : String → String → Response (Option ApiAlert)
    unfolding get_system alert_or_nil
    get_alert system_id alert_id =
        and_then (get_system lib.quoted q.query_system system_id)
          (λ system. alert_or_nil system (q.alert_in_system system.pk alert_id))
