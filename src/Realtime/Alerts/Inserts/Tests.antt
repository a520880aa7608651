-- ===== src/Realtime/Alerts/Inserts/Tests.antt =====
-- The theorem on `insertAlerts` at one alert.
use Prim.{tt}
use transiter.Base.{List, [], false, nat_keys, none, refl, some, string_keys, true, ◌++◌, ◌∷◌, ◌≡◌}
use transiter.Base.Int.{int_keys, pos}
use transiter.Base.Maps.{insert, lookup}
use transiter.Database.Wrappers.{map_id_to_pk_in_system, pks_of_rows}
use transiter.Realtime.Alerts.{Alert}
use transiter.Realtime.Alerts.Inserts.{
  InsertAlertQueries, entity_inserts, insert_alerts, insert_all_rows, insert_each_alert,
  mentioned_pks, period_inserts, trip_insert,
}
use transiter.Realtime.Alerts.Inserts.WithoutIds.{entity_inserts-without_ids, has_trip_row}
use transiter.Realtime.Alerts.Mentions.{
  AlertBody, AlertInsert, InformedEntity, InformedTrip, MentionedPks, insert_alert_active_period,
  insert_alert_stop, mention, mention_all, mentioned_ids,
}

-- The trip at 8:00 of some day on the route R.
abbrev trip_by_route : InformedTrip
trip_by_route = record {
  id = "";
  route_id = "R";
  direction_id = some true;
  start_date = some (pos 1_700_000_000);
  start_time = some (pos 28_800);
}

abbrev entity : InformedEntity
entity = record {
  agency_id = none;
  route_id = none;
  stop_id = some "S";
  trip_id = some trip_by_route;
  route_type = none;
}

abbrev one_alert : Alert AlertBody
one_alert = record {
  id = "A";
  body = record {
    cause = "";
    effect = "";
    header = "";
    description = "";
    url = "";
    informed_entities = entity ∷ [];
    active_periods = (none, none) ∷ [];
  };
}

-- Every ID that is asked for is known; the database holds the rows that are inserted.
abbrev queries : InsertAlertQueries (List AlertInsert)
queries = record {
  map_agencies = λ d. some [];
  map_routes = λ d filter_ids ids. some (("R", 3) ∷ []);
  map_stops = λ d filter_ids ids. some (("S", 4) ∷ []);
  map_trips = λ d filter_ids ids. some [];
  map_scheduled_trips = λ d filter_ids ids. some [];
  insert_alert_row = λ alert h d. some (6, d);
  insert_row = λ r d. some (d ++ r ∷ []);
}

abbrev stop_pks : MentionedPks
stop_pks = record {
  agency_id_to_pk = [];
  route_id_to_pk = [];
  stop_id_to_pk = ("S", 4) ∷ [];
  trip_id_to_pk = [];
  scheduled_trip_id_to_pk = [];
}

-- Only the stop and the period are inserted.
insert_alerts-one_alert :
    insert_alerts queries (one_alert ∷ []) (("A", "h") ∷ []) []
    ≡ some (6 ∷ [], insert_alert_stop 6 4 ∷ insert_alert_active_period 6 none none ∷ [])
unfolding insert_alerts insert_each_alert insert_all_rows entity_inserts period_inserts trip_insert
    mentioned_pks mentioned_ids mention_all mention map_id_to_pk_in_system pks_of_rows insert lookup
insert_alerts-one_alert = refl

entity_inserts-without_ids_example : has_trip_row (entity_inserts stop_pks 6 (entity ∷ [])) ≡ false
entity_inserts-without_ids_example =
    entity_inserts-without_ids queries (one_alert ∷ []) [] stop_pks ((refl, refl, tt), tt)
      (unfold mentioned_pks mentioned_ids mention_all mention map_id_to_pk_in_system pks_of_rows
          insert in
        refl)
      6 (entity ∷ [])
