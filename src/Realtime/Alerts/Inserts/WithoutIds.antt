-- ===== src/Realtime/Alerts/Inserts/WithoutIds.antt =====
-- Alerts for trips that are given by route, direction and start, without an ID.
use Prim.{Unit}
use Prim.Native.String.{String}
use mathlib.Core.Path.{subst}
use transiter.Base.{
  Bool, Bool-cases, List, Option, Option-cases, [], false, if◌then◌else◌, inl, inr, nat_keys, none,
  refl, some, string_keys, true, ℕ, ◌++◌, ◌==◌, ◌||◌, ◌∷◌, ◌≡◌,
}
use transiter.Base.Int.{int_keys}
use transiter.Base.Maps.{Map, lookup}
use transiter.Database.Wrappers.{map_id_to_pk_in_system}
use transiter.Realtime.Alerts.{Alert}
use transiter.Realtime.Alerts.Inserts.{
  InsertAlertQueries, entity_inserts, known_insert, mentioned_pks, no_ids, route_type_inserts,
  trip_insert, trip_inserts,
}
use transiter.Realtime.Alerts.Mentions.{
  AlertBody, AlertInsert, InformedEntity, InformedTrip, MentionedIds, MentionedPks,
  insert_alert_active_period, insert_alert_agency, insert_alert_route, insert_alert_route_type,
  insert_alert_stop, insert_alert_trip, mention, mention_all, mentioned_ids, trip_id_list,
  trip_route_id_list,
}

-- The entity has no route of its own, and its trip, if any, no ID.
abbrev pub LacksTripId : Option InformedTrip → Type 0
LacksTripId none = Unit
LacksTripId (some trip) = trip.id ≡ ""

abbrev pub AllLackIds : List InformedEntity → Type 0
AllLackIds [] = Unit
AllLackIds (e ∷ es) = (e.route_id ≡ none) × LacksTripId e.trip_id × AllLackIds es

abbrev pub AlertsLackIds : List (Alert AlertBody) → Type 0
AlertsLackIds [] = Unit
AlertsLackIds (alert ∷ alerts) = AllLackIds alert.body.informed_entities × AlertsLackIds alerts

trip_id_list-empty : (t : Option InformedTrip) → LacksTripId t → trip_id_list t ≡ []
trip_id_list-empty none h = refl
trip_id_list-empty (some trip) h = rw h refl

trip_route_id_list-empty : (t : Option InformedTrip) → LacksTripId t → trip_route_id_list t ≡ []
trip_route_id_list-empty none h = refl
trip_route_id_list-empty (some trip) h = rw h refl

-- Neither routes nor trips are asked for.
abbrev AsksNothing : MentionedIds → Type 0
AsksNothing m = (m.route_ids ≡ []) × (m.trip_ids ≡ [])

mention_all-AsksNothing :
    (es : List InformedEntity) (m : MentionedIds)
    → AllLackIds es
    → AsksNothing m
    → AsksNothing (mention_all es m)
unfolding mention_all mention
mention_all-AsksNothing [] m h a = a
mention_all-AsksNothing (e ∷ es) m (no_route, no_trip, h) (no_routes, no_trips) =
    mention_all-AsksNothing es (mention e m) h (
      rw (no_routes, no_route, trip_route_id_list-empty e.trip_id no_trip) refl,
      rw (no_trips, trip_id_list-empty e.trip_id no_trip) refl,
    )

mentioned_ids-AsksNothing :
    (alerts : List (Alert AlertBody)) (m : MentionedIds)
    → AlertsLackIds alerts
    → AsksNothing m
    → AsksNothing (mentioned_ids alerts m)
unfolding mentioned_ids
mentioned_ids-AsksNothing [] m h a = a
mentioned_ids-AsksNothing (alert ∷ alerts) m (h, rest) a =
    mentioned_ids-AsksNothing alerts (mention_all alert.body.informed_entities m) rest
      (mention_all-AsksNothing alert.body.informed_entities m h a)

-- Whether a row for a trip is among the rows.
abbrev pub has_trip_row : List AlertInsert → Bool
has_trip_row [] = false
has_trip_row (insert_alert_trip p ∷ rs) = true
has_trip_row (_ ∷ rs) = has_trip_row rs

has_trip_row-append :
    (xs ys : List AlertInsert) → has_trip_row (xs ++ ys) ≡ (has_trip_row xs || has_trip_row ys)
has_trip_row-append [] ys = refl
has_trip_row-append (insert_alert_trip p ∷ rs) ys = refl
has_trip_row-append (insert_alert_agency a b ∷ rs) ys = has_trip_row-append rs ys
has_trip_row-append (insert_alert_route a b ∷ rs) ys = has_trip_row-append rs ys
has_trip_row-append (insert_alert_stop a b ∷ rs) ys = has_trip_row-append rs ys
has_trip_row-append (insert_alert_route_type a b ∷ rs) ys = has_trip_row-append rs ys
has_trip_row-append (insert_alert_active_period a b c ∷ rs) ys = has_trip_row-append rs ys

no_trip-append :
    (xs ys : List AlertInsert)
    → has_trip_row xs ≡ false
    → has_trip_row ys ≡ false
    → has_trip_row (xs ++ ys) ≡ false
no_trip-append xs ys hx hy = rw (has_trip_row-append, hx) hy

module _ (agencies stops : Map String ℕ) (alert_pk : ℕ) where
  abbrev no_trip_pks : MentionedPks
  no_trip_pks = record {
    agency_id_to_pk = agencies;
    route_id_to_pk = [];
    stop_id_to_pk = stops;
    trip_id_to_pk = [];
    scheduled_trip_id_to_pk = [];
  }

  known_insert-no_trip :
      (f : ℕ → ℕ → AlertInsert) (m : Map String ℕ) (id : Option String)
      → ((pk : ℕ) → has_trip_row (f alert_pk pk ∷ []) ≡ false)
      → has_trip_row (known_insert no_trip_pks alert_pk f m id) ≡ false
  known_insert-no_trip f m none h = refl
  known_insert-no_trip f m (some id) h = elim (Option-cases (lookup id m)) [
    | inl absent ↦ rw (absent, has_trip_row) refl
    | inr (pk, present) ↦ rw (present, has_trip_row) (h pk)
  ]

  trip_inserts-no_trip : (t : Option InformedTrip) → trip_inserts no_trip_pks alert_pk t ≡ []
  unfolding trip_insert lookup
  trip_inserts-no_trip none = refl
  trip_inserts-no_trip (some trip) = elim (Bool-cases (trip.route_id == "")) [
    | inl no_route ↦ rw no_route refl
    | inr given ↦ rw given refl
  ]

  route_type_inserts-no_trip :
      (t : Option String) → has_trip_row (route_type_inserts no_trip_pks alert_pk t) ≡ false
  route_type_inserts-no_trip none = refl
  route_type_inserts-no_trip (some t) = refl

  entity_inserts-no_trip :
      (es : List InformedEntity) → has_trip_row (entity_inserts no_trip_pks alert_pk es) ≡ false
  unfolding entity_inserts
  entity_inserts-no_trip [] = refl
  entity_inserts-no_trip (e ∷ es) =
      let agency = known_insert-no_trip insert_alert_agency agencies e.agency_id (λ pk. refl) in
      let route = known_insert-no_trip insert_alert_route [] e.route_id (λ pk. refl) in
      let stop = known_insert-no_trip insert_alert_stop stops e.stop_id (λ pk. refl) in
      let trip : has_trip_row (trip_inserts no_trip_pks alert_pk e.trip_id) ≡ false =
        rw (trip_inserts-no_trip e.trip_id) refl in
      let route_type = route_type_inserts-no_trip e.route_type in
      let rest = entity_inserts-no_trip es in search no_trip-append

no_ids-no_pks :
    (query : Bool → List String → Option (List (String × ℕ)))
    → map_id_to_pk_in_system query (some []) ≡ some []
unfolding map_id_to_pk_in_system
no_ids-no_pks query = refl

module _ {Database : Type 0} (q : InsertAlertQueries Database) where
  -- Where no trip of the alerts has an ID and no entity a route of its own, no row for a trip is
  -- inserted, also not for trips with a route, a direction and a start.
  pub entity_inserts-without_ids :
      (alerts : List (Alert AlertBody)) (d : Database) (pks : MentionedPks)
      → AlertsLackIds alerts
      → mentioned_pks q alerts d ≡ some pks
      → (alert_pk : ℕ) (es : List InformedEntity)
      → has_trip_row (entity_inserts pks alert_pk es) ≡ false
  unfolding mentioned_pks
  entity_inserts-without_ids alerts d pks h e alert_pk es =
      let (no_routes, no_trips) = mentioned_ids-AsksNothing alerts no_ids h (refl, refl) in
      let ids = mentioned_ids alerts no_ids in
      let routes = no_ids-no_pks (q.map_routes d) in
      let trips = no_ids-no_pks (q.map_trips d) in
      let scheduled = no_ids-no_pks (q.map_scheduled_trips d) in
      elim (Option-cases (if ids.agency_referenced then q.map_agencies d else some [])) [
        | inl fails ↦ absurd (cc (rw (no_routes, no_trips, fails) at e))
        | inr (agencies, listed) ↦
            elim (Option-cases (map_id_to_pk_in_system (q.map_stops d) (some ids.stop_ids))) [
              | inl fails ↦ absurd (cc (rw (no_routes, no_trips, listed, routes, fails) at e))
              | inr (stops, known) ↦
                  let same : no_trip_pks agencies stops alert_pk ≡ pks =
                    cc (rw (no_routes, no_trips, listed, routes, known, trips, scheduled) at e) in
                  subst (λ p. has_trip_row (entity_inserts p alert_pk es) ≡ false) same
                    (entity_inserts-no_trip agencies stops alert_pk es)
            ]
      ]
