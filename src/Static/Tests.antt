-- ===== src/Static/Tests.antt =====
-- The theorems on static updates at small feeds.
use Prim.{tt}
use Prim.Native.String.{String}
use transiter.Base.{
  List, Memᴰ, Option, [], contains, false, inl, map, nat_keys, none, refl, some, string_keys, suc,
  true, ℕ, ◌+◌, ◌∷◌, ◌≡◌,
}
use transiter.Base.Int.{int32_of_uint32, int_keys}
use transiter.Base.Maps.{Map, insert, lookup}
use transiter.Public.Pages.{from_id}
use transiter.Static.Rows.{Agency, Route, Stop, null_if_empty_string}
use transiter.Static.ScheduledTrips.{
  InsertTripStopTime, StaticTrip, all_stop_time_rows, trip_rows, zero_if_none,
}
use transiter.Static.ScheduledTrips.Orphans.{inserted_ids, skipped_trip-stop_times}
use transiter.Static.Services.{
  FeedService, ServiceQueries, insert_dates, insert_rows, update_services, write_service,
}
use transiter.Static.TransferId.{double_underscores, transfer_id, transfer_id-injective}
use transiter.Static.Transfers.{
  Transfer, insert_unique, update_transfers, update_transfers-succeeds,
}
use transiter.Static.Upsert.{
  Queries, route_columns_in, update_agencies, update_parents, update_routes, update_stops,
  upsert_rows,
}
use transiter.Static.Upsert.PrimaryKeys.{Keeps, update_stops-Keeps}

-- A database is the next primary key.
abbrev counting : {C : Type 0} → Map String ℕ → Queries C ℕ
counting old = record {
  ids_to_pks = λ system_pk d. some old;
  update_row = λ pk columns d. some d;
  insert_row = λ system_pk id columns d. some (d, suc d);
  delete_stale = λ feed_pk pks d. some d;
}

abbrev old_pks : Map String ℕ
old_pks = ("A", 3) ∷ []

abbrev agency : String → Agency
agency id = record {
  id = id;
  name = "";
  url = "";
  timezone = "";
  language = "";
  phone = "";
  fare_url = "";
  email = "";
}

abbrev agencies : List Agency
agencies = agency "A" ∷ agency "B" ∷ []

agencies_pks :
    update_agencies (counting old_pks) 1 2 agencies 9 ≡ some (("A", 3) ∷ ("B", 9) ∷ [], 10)
unfolding update_agencies upsert_rows lookup insert
agencies_pks = refl

abbrev route : String → String → Route
route id agency_id = record {
  id = id;
  agency_id = agency_id;
  color = "";
  text_color = "";
  short_name = "";
  long_name = "";
  description = "";
  url = "";
  sort_order = none;
  route_type = "";
  continuous_pickup = "";
  continuous_drop_off = "";
}

abbrev routes : List Route
routes = route "A" "X" ∷ route "B" "Y" ∷ route "C" "X" ∷ []

routes_pks :
    update_routes (counting old_pks) 1 2 (("X", 7) ∷ []) routes 9
    ≡ some (("A", 3) ∷ ("C", 9) ∷ [], 10)
unfolding update_routes upsert_rows lookup insert route_columns_in
routes_pks = refl

abbrev stop : String → Option String → Stop ℕ
stop id parent = record {
  id = id;
  parent = parent;
  name = "";
  stop_type = "";
  longitude = none;
  latitude = none;
  url = "";
  stop_code = "";
  description = "";
  platform_code = "";
  timezone = "";
  wheelchair_boarding = none;
  zone_id = "";
}

abbrev stops : List (Stop ℕ)
stops = stop "A" (some "B") ∷ stop "B" none ∷ []

abbrev count_parent : ℕ → ℕ → ℕ → Option ℕ
count_parent pk parent d = some (d + 100)

stops_pks :
    update_stops count_parent (counting old_pks) 1 2 true stops 9
    ≡ some (("A", 3) ∷ ("B", 9) ∷ [], 110)
unfolding update_stops upsert_rows lookup insert update_parents
stops_pks = refl

update_stops-Keeps_example :
    Keeps (map (λ (s : Stop ℕ). s.id) stops) old_pks (("A", 3) ∷ ("B", 9) ∷ [])
update_stops-Keeps_example =
    update_stops-Keeps 1 2 9 110 old_pks (("A", 3) ∷ ("B", 9) ∷ []) count_parent (counting old_pks)
      true stops refl stops_pks

transfer_id_example : transfer_id "a_" "b" ≡ "a___to_b"
unfolding transfer_id double_underscores
transfer_id_example = refl

transfer_id-injective_example : ◌≡◌ {A = String} "a_" "a_" × ◌≡◌ {A = String} "b" "b"
transfer_id-injective_example = transfer_id-injective "a_" "b" "a_" "b" refl

abbrev transfer : String → String → Transfer
transfer from_id to_id = record {
  from_id = from_id;
  to_id = to_id;
  transfer_type = "";
  min_transfer_time = none;
}

abbrev transfers : List Transfer
transfers = transfer "A" "B" ∷ transfer "B" "A" ∷ transfer "A" "X" ∷ []

update_transfers-succeeds_example :
    (after : List String) × (update_transfers 1 2
        (("A", 3) ∷ ("B", 9) ∷ [])
        (insert_unique 1 2 (("A", 3) ∷ ("B", 9) ∷ []))
        (λ feed_pk rows. some [])
        transfers
        ("A_to_B" ∷ [])
      ≡ some after)
update_transfers-succeeds_example =
    update_transfers-succeeds 1 2 (("A", 3) ∷ ("B", 9) ∷ []) transfers ("A_to_B" ∷ [])
      (refl, (refl, (refl, tt)))

abbrev static_trip : StaticTrip ℕ
static_trip = record {
  id = "T";
  route_id = "unknown";
  service_id = "S";
  shape_id = none;
  headsign = "";
  short_name = "";
  stop_times = record { stop_id = "A"; stop_sequence = 1; headsign = ""; rest = 0 } ∷ [];
  rest = 0;
}

-- The trip is skipped, and its stop time is inserted for the trip 0.
skipped_trip : trip_rows (("R", 1) ∷ []) (("S", 2) ∷ []) [] (static_trip ∷ []) ≡ []
unfolding trip_rows lookup
skipped_trip = refl

skipped_trip-stop_times_example :
    (contains {A = String}
        (inserted_ids {R = ℕ} (("R", 1) ∷ []) (("S", 2) ∷ []) [] (static_trip ∷ []))
        "T"
      ≡ false)
    × Memᴰ {A = InsertTripStopTime ℕ}
        (record {
          trip_pk = 0;
          stop_pk = zero_if_none (lookup {K = String} "A" (("A", 3) ∷ []));
          stop_sequence = int32_of_uint32 1;
          headsign = null_if_empty_string "";
          rest = 0;
        })
        (all_stop_time_rows (("A", 3) ∷ []) [] (static_trip ∷ []))
skipped_trip-stop_times_example =
    skipped_trip-stop_times (("R", 1) ∷ []) (("S", 2) ∷ []) [] (("A", 3) ∷ []) [] []
      (static_trip ∷ []) static_trip
      (record { stop_id = "A"; stop_sequence = 1; headsign = ""; rest = 0 }) refl (Memᴰ.head refl)
      (Memᴰ.head refl) (inl (unfold lookup in refl)) (unfold lookup in refl) (λ id gone. refl)

abbrev service : String → FeedService ℕ
service id = record {
  id = id;
  start_date = 0;
  end_date = 9;
  monday = true;
  tuesday = true;
  wednesday = true;
  thursday = true;
  friday = true;
  saturday = false;
  sunday = false;
  added_dates = 6 ∷ [];
  removed_dates = [];
}

abbrev service_queries : ServiceQueries ℕ ℕ
service_queries = record {
  delete_scheduled_services = λ feed_pk system_pk ids d. some d;
  insert_scheduled_service = λ system_pk feed_pk s d. some (d, suc d);
  insert_addition = λ pk date d. some (d + 100);
  insert_removal = λ pk date d. some d;
}

services_pks :
    update_services service_queries 1 2 (service "S" ∷ service "T" ∷ []) 5
    ≡ some (("S", 5) ∷ ("T", 106) ∷ [], 207)
unfolding update_services insert_rows write_service insert_dates insert
services_pks = refl
