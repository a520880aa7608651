-- ===== src/Realtime/Alerts/Inserts.antt =====
-- `insertAlerts` of internal/update/realtime/realtime.go: the rows of new alerts and of the entities
-- that they inform.
use Prim.Native.String.{String}
use transiter.Base.{
  Bool, List, Option, [], false, if◌then◌else◌, nat_keys, none, some, string_keys, ℕ, ◌&&◌, ◌++◌,
  ◌==◌, ◌||◌, ◌∷◌,
}
use transiter.Base.Int.{int_keys, ℤ}
use transiter.Base.Maps.{Map, lookup}
use transiter.Database.Wrappers.{map_id_to_pk_in_system}
use transiter.Realtime.Alerts.{Alert}
use transiter.Realtime.Alerts.Mentions.{
  AlertBody, AlertInsert, InformedEntity, InformedTrip, MentionedIds, MentionedPks,
  insert_alert_active_period, insert_alert_agency, insert_alert_route, insert_alert_route_type,
  insert_alert_stop, insert_alert_trip, is_some, mentioned_ids,
}
pub mod WithoutIds
mod Tests

infixl 5 ◌>>=◌
abbrev ◌>>=◌ : {A B : Type 0} → Option A → (A → Option B) → Option B
none >>= f = none
some a >>= f = f a

module _ (pks : MentionedPks) (alert_pk : ℕ) where
  -- The row for an ID, if it is given and known.
  abbrev pub known_insert : (ℕ → ℕ → AlertInsert) → Map String ℕ → Option String → List AlertInsert
  known_insert f m none = []
  known_insert f m (some id) = elim (lookup id m) [ none ↦ [] | some pk ↦ f alert_pk pk ∷ [] ]

  unfoldable pub trip_insert : InformedTrip → List AlertInsert
  trip_insert trip =
      let trip_pk = lookup trip.id pks.trip_id_to_pk in
      let scheduled_trip_pk = lookup trip.id pks.scheduled_trip_id_to_pk in
      let route_pk =
        if trip.route_id == "" then none else lookup trip.route_id pks.route_id_to_pk in
      if is_some trip_pk
        || (is_some scheduled_trip_pk
            || (is_some route_pk
                && (is_some trip.direction_id
                    && (is_some trip.start_date && is_some trip.start_time))))
      then insert_alert_trip (record {
        alert_pk = alert_pk;
        trip_pk = trip_pk;
        scheduled_trip_pk = scheduled_trip_pk;
        route_pk = route_pk;
        direction_id = trip.direction_id;
        start_date = trip.start_date;
        start_time = trip.start_time;
      })
        ∷ []
      else []

  abbrev pub trip_inserts : Option InformedTrip → List AlertInsert
  unfolding trip_insert
  trip_inserts none = []
  trip_inserts (some trip) = trip_insert trip

  abbrev pub route_type_inserts : Option String → List AlertInsert
  route_type_inserts none = []
  route_type_inserts (some t) = insert_alert_route_type alert_pk t ∷ []

  -- The rows of all the entities, in the order in which they are inserted.
  unfoldable pub entity_inserts : List InformedEntity → List AlertInsert
  entity_inserts [] = []
  entity_inserts (e ∷ es) =
      known_insert insert_alert_agency pks.agency_id_to_pk e.agency_id
      ++ known_insert insert_alert_route pks.route_id_to_pk e.route_id
      ++ known_insert insert_alert_stop pks.stop_id_to_pk e.stop_id
      ++ trip_inserts e.trip_id
      ++ route_type_inserts e.route_type
      ++ entity_inserts es

  unfoldable pub period_inserts : List (Option ℤ × Option ℤ) → List AlertInsert
  period_inserts [] = []
  period_inserts ((starts_at, ends_at) ∷ periods) =
      insert_alert_active_period alert_pk starts_at ends_at ∷ period_inserts periods

-- The queries, none where one fails; `insert_row` has one for each kind of row.
pub record InsertAlertQueries (Database : Type 0) : Type 0 where
  pub map_agencies : Database → Option (Map String ℕ)
  pub map_routes : Database → Bool → List String → Option (List (String × ℕ))
  pub map_stops : Database → Bool → List String → Option (List (String × ℕ))
  pub map_trips : Database → Bool → List String → Option (List (String × ℕ))
  pub map_scheduled_trips : Database → Bool → List String → Option (List (String × ℕ))
  pub insert_alert_row : Alert AlertBody → String → Database → Option (ℕ × Database)
  pub insert_row : AlertInsert → Database → Option Database

abbrev pub hash_or_empty : Option String → String
hash_or_empty none = ""
hash_or_empty (some h) = h

abbrev pub no_ids : MentionedIds
no_ids = record { agency_referenced = false; route_ids = []; stop_ids = []; trip_ids = [] }

module _ {Database : Type 0} (q : InsertAlertQueries Database) where
  unfoldable pub mentioned_pks : List (Alert AlertBody) → Database → Option MentionedPks
  unfolding mentioned_ids
  mentioned_pks alerts d = do
    let all_ids = mentioned_ids alerts no_ids
    agencies ← if all_ids.agency_referenced then q.map_agencies d else some []
    routes ← map_id_to_pk_in_system (q.map_routes d) (some all_ids.route_ids)
    stops ← map_id_to_pk_in_system (q.map_stops d) (some all_ids.stop_ids)
    trips ← map_id_to_pk_in_system (q.map_trips d) (some all_ids.trip_ids)
    scheduled ← map_id_to_pk_in_system (q.map_scheduled_trips d) (some all_ids.trip_ids)
    some (record {
      agency_id_to_pk = agencies;
      route_id_to_pk = routes;
      stop_id_to_pk = stops;
      trip_id_to_pk = trips;
      scheduled_trip_id_to_pk = scheduled;
    })

  unfoldable pub insert_all_rows : List AlertInsert → Database → Option Database
  insert_all_rows [] d = some d
  insert_all_rows (r ∷ rs) d = do next ← q.insert_row r d; insert_all_rows rs next

  unfoldable pub insert_each_alert :
      MentionedPks
      → Map String String
      → List (Alert AlertBody)
      → List ℕ
      → Database
      → Option (List ℕ × Database)
  unfolding insert_all_rows entity_inserts period_inserts
  insert_each_alert pks id_to_hash [] new_alert_pks d = some (new_alert_pks, d)
  insert_each_alert pks id_to_hash (alert ∷ alerts) new_alert_pks d = do
    (pk, d1) ← q.insert_alert_row alert (hash_or_empty (lookup alert.id id_to_hash)) d
    d2 ← insert_all_rows (entity_inserts pks pk alert.body.informed_entities) d1
    d3 ← insert_all_rows (period_inserts pks pk alert.body.active_periods) d2
    insert_each_alert pks id_to_hash alerts (new_alert_pks ++ pk ∷ []) d3

  unfoldable pub insert_alerts :
      List (Alert AlertBody) → Map String String → Database → Option (List ℕ × Database)
  unfolding insert_each_alert mentioned_pks
  insert_alerts alerts id_to_hash d = do
    pks ← mentioned_pks alerts d
    insert_each_alert pks id_to_hash alerts [] d
