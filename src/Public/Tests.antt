-- ===== src/Public/Tests.antt =====
-- Concrete databases and requests for the theorems on the public API.
use Prim.Native.Char.{code}
use Prim.Native.String.{String}
use text.Mathlib.TextEquality.{Char-path}
use transiter.Base.{
  Bool, List, Memᴰ, Option, [], ap, arith, false, if◌then◌else◌, ltb, map, nat_keys, nat_same, none,
  refl, some, string_keys, sym, true, ℕ, ◌==◌, ◌∙◌, ◌∷◌, ◌≡◌,
}
use transiter.Base.Int.{int_keys, negsuc, pos, ℤ}
use transiter.Base.Maps.{insert, lookup}
use transiter.Public.Pages.{
  TextOrder, base_limit, cut_page, from_id, insert_by_id, limit_rows, next_int32, order_by_id,
  page_limit, page_query, split_last, take, take-length, where_rows,
}
use transiter.Public.Pages.Walk.{walk_pages}
use transiter.Public.Reference.{AlertReference, Generator, PublicLibrary, alert_reference}
use transiter.Public.Results.{
  DbSystem, Response, answer, found, get_system, no_rows, panics, query_error, reply,
}
use transiter.Public.Stops.{
  DbStop, EstimateColumns, ListStopsRequest, RawStopData, Skip, StopQueries,
}
use transiter.Public.Stops.Bounds.{list_stops-fits, list_stops-minus_one, requested_limit}
use transiter.Public.Stops.Build.{build_stops_response}
use transiter.Public.Stops.Consistent.{Consistent}
use transiter.Public.Stops.Handlers.{check, invalid_filters, list_stops_reply, read_stops}
use transiter.Public.Stops.Members.{api_alerts-descendents}
use transiter.Public.Stops.Paging.{
  fits, from_first, list_stops-walk_pages, list_stops_query, reply_ids, stop_selected,
}
use transiter.Public.Stops.RawData.{descendents_of_rows, list_at}
use transiter.Public.Stops.Response.{ApiStop, stop_pk_to_api_alerts}
use transiter.Public.Stops.Total.{build_stops_response-total}

unfoldable pub text_at_most : String → String → Bool
text_at_most String.[] t = true
text_at_most (String.◌∷◌ c s) String.[] = false
text_at_most (String.◌∷◌ c s) (String.◌∷◌ d t) =
    let later = text_at_most s t in
    if ltb (code c) (code d) then true else if nat_same (code c) (code d) then later else false

text_refl : (a : String) → text_at_most a a ≡ true
unfolding text_at_most
text_refl String.[] = refl
text_refl (String.◌∷◌ c s) = ground (arith, text_refl s)

text_trans :
    (a b c : String) → text_at_most a b ≡ true → text_at_most b c ≡ true → text_at_most a c ≡ true
unfolding text_at_most
text_trans String.[] b c h k = refl
text_trans (String.◌∷◌ x a) String.[] c h k = absurd (cc h)
text_trans (String.◌∷◌ x a) (String.◌∷◌ y b) String.[] h k = absurd (cc k)
text_trans (String.◌∷◌ x a) (String.◌∷◌ y b) (String.◌∷◌ z c) h k =
    ground (arith, h, k, text_trans a b c)

text_total : (a b : String) → text_at_most a b ≡ false → text_at_most b a ≡ true
unfolding text_at_most
text_total String.[] b h = absurd (cc h)
text_total (String.◌∷◌ x a) String.[] h = refl
text_total (String.◌∷◌ x a) (String.◌∷◌ y b) h = ground (arith, h, text_total a b)

text_antisym : (a b : String) → text_at_most a b ≡ true → text_at_most b a ≡ true → a ≡ b
unfolding text_at_most
text_antisym String.[] String.[] h k = refl
text_antisym String.[] (String.◌∷◌ y b) h k = absurd (cc k)
text_antisym (String.◌∷◌ x a) String.[] h k = absurd (cc h)
text_antisym (String.◌∷◌ x a) (String.◌∷◌ y b) h k =
    let same : x ≡ y = Char-path x y (ground (arith, h, k)) in
    let rest : a ≡ b = text_antisym a b (ground (arith, h, k)) (ground (arith, h, k)) in
    ap (λ c. String.◌∷◌ c a) same ∙ ap (λ s. String.◌∷◌ y s) rest

abbrev byte_order : TextOrder
byte_order = record {
  at_most = text_at_most;
  at_most_refl = text_refl;
  at_most_trans = text_trans;
  at_most_total = text_total;
  at_most_antisym = text_antisym;
}

abbrev pub go : PublicLibrary
go = record {
  Float = ℕ;
  Geography = ℕ × ℕ;
  Time = ℕ;
  unix = pos;
  path_join = λ elem. "path";
  quoted = λ id. id;
  point = λ longitude latitude. (longitude, latitude);
  no_point = (0, 0);
  alert_cause = λ cause. 1;
  alert_effect = λ effect. 2;
  transfer_type = λ name. 0;
  stop_type = λ name. 1;
  stop_type_name = λ kind. "STATION";
}

abbrev pub generator : Generator
generator = record { url_enabled = false; base_url = "" }

abbrev a_stop : ℕ → String → Option ℕ → DbStop ℕ
a_stop pk id parent = record {
  pk = pk;
  id = id;
  name = some id;
  parent_stop_pk = parent;
  type_name = "STATION";
  rest = 0;
}

abbrev stop_table : List (DbStop ℕ)
stop_table = a_stop 3 "c" none ∷ a_stop 1 "a" none ∷ a_stop 2 "b" (some 1) ∷ []

abbrev descendent_pairs : List (ℕ × ℕ)
descendent_pairs = (1, 1) ∷ (1, 2) ∷ (2, 2) ∷ (3, 3) ∷ []

abbrev pub system_a : DbSystem
system_a = record { pk = 1; id = "system"; name = "System"; status = "ACTIVE" }

abbrev no_estimate : EstimateColumns ℕ
no_estimate = record { time = some 5; delay = none; uncertainty = none }

abbrev queries : StopQueries go ℕ
queries = record {
  query_system = λ id. answer system_a;
  list_stops = list_stops_query byte_order stop_table;
  list_stops_geographic = λ p. limit_rows p.max_results stop_table;
  query_stop = λ system id. query_error no_rows;
  child_pks = λ pks. answer ((1, 2) ∷ []);
  descendent_pks = λ pks. answer descendent_pairs;
  transfers_from_stops = λ pks. answer [];
  active_alerts_for_stops = λ pks now.
      answer (record { stop_pk = 2; id = "alert"; cause = "STRIKE"; effect = "DETOUR" } ∷ []);
  stop_times_by_stops = λ pks. answer (
      record {
        stop_pk = 2;
        trip_pk = 9;
        route_pk = 7;
        id = "trip";
        direction_id = some true;
        stop_sequence = pos 4;
        track = none;
        past = false;
        headsign = none;
        scheduled_trip_headsign = some "Terminal";
        arrival = no_estimate;
        departure = no_estimate;
        vehicle_id = some "vehicle";
      }
      ∷ []);
  destinations_for_trips = λ pks. answer (record { trip_pk = 9; destination_pk = 3 } ∷ []);
  service_maps_for_stops =
      λ pks. answer (record { stop_pk = 1; config_id = "default"; route_pk = 7 } ∷ []);
  config_ids_for_stops = λ pks. answer (record { pk = 1; id = "default" } ∷ []);
  headsign_rules_for_stops = λ pks. answer [];
  stops_by_pk = λ pks. answer (record { pk = 1; stop_id = "a"; name = some "A" } ∷ []);
  routes_by_pk = λ pks. answer (record { pk = 7; id = "route"; color = "red" } ∷ []);
}

queries-Consistent : Consistent queries (λ pk. pk == 7)
queries-Consistent = record {
  children = λ pks. (_, refl);
  descendents = λ pks. (_, refl);
  transfers = λ pks. (_, refl);
  alerts = λ pks now. (_, refl);
  stop_times = λ pks. (_, refl, refl);
  destinations = λ pks. (_, refl);
  service_maps = λ pks. (_, _, refl, refl, refl);
  headsign_rules = λ pks. (_, refl);
  stops = λ pks. (_, refl);
  routes = λ pks. (_, refl, λ pk inside known. ground (arith, known));
}

abbrev show_all : Skip
show_all = record { stop_times = false; service_maps = false; alerts = false; transfers = false }

abbrev request : Option ℤ → ListStopsRequest go ℕ
request limit = record {
  system_id = "system";
  only_return_specified_ids = false;
  filter_by_id = false;
  ids = [];
  filter_by_type = false;
  types = [];
  limit = limit;
  first_id = none;
  by_distance = false;
  latitude = none;
  longitude = none;
  max_distance = none;
  skip = show_all;
}

list_stops-walk_pages_example :
    walk_pages
      (λ id. reply_ids (
        list_stops_reply go generator queries 0 (pos 100) (from_first (request (some (pos 1))) id)))
      4
      "b"
    ≡ some ("b" ∷ "c" ∷ [])
unfolding page_limit base_limit invalid_filters order_by_id insert_by_id where_rows from_id
    stop_selected text_at_most
list_stops-walk_pages_example =
    list_stops-walk_pages go generator queries 0 (λ pk. pk == 7) queries-Consistent byte_order
      stop_table system_a (request (some (pos 1))) (pos 100) 0 refl refl (omega arith) refl refl
      (λ p. refl) refl "b" 4 (omega arith)

limit_rows-fits :
    (n : ℤ) (xs stops : List (DbStop ℕ)) → limit_rows n xs ≡ answer stops → fits stops n ≡ true
unfolding limit_rows
limit_rows-fits (pos n) xs stops e =
    let same : take n xs ≡ stops = cc e in rw (sym same) (ground (arith, take-length n xs))
limit_rows-fits (negsuc n) xs stops e = absurd (cc e)

abbrev first_page : Response (List (ApiStop ℕ) × Option String)
first_page = list_stops_reply go generator queries 0 (pos 100) (request (some (pos 1)))

abbrev page_of : Response (List (ApiStop ℕ) × Option String) → List (ApiStop ℕ) × Option String
page_of (reply p) = p
page_of _ = ([], none)

list_stops-fits_example :
    (fits (page_of first_page).0 (pos 100) ≡ true) × (fits (page_of first_page).0 (pos 1) ≡ true)
unfolding list_stops_reply page_limit base_limit invalid_filters list_stops_query page_query
    limit_rows order_by_id insert_by_id where_rows from_id stop_selected text_at_most
    build_stops_response next_int32 cut_page split_last get_system found check read_stops
    requested_limit lookup insert
list_stops-fits_example =
    list_stops-fits go generator queries 0 (request (some (pos 1))) (pos 100)
      (λ p. limit_rows-fits p.num_stops _) (λ p. limit_rows-fits p.max_results stop_table) refl
      {p = page_of first_page} refl

list_stops-minus_one_example :
    list_stops_reply go generator queries 0 (pos 0) (request (some (negsuc 0))) ≡ panics
unfolding invalid_filters list_stops_query page_query limit_rows
list_stops-minus_one_example =
    list_stops-minus_one go generator queries 0 (request (some (negsuc 0))) (pos 0) system_a refl
      refl refl refl (λ p h. rw h refl)

build_stops_response-total_example :
    (a : List (ApiStop ℕ)) × (build_stops_response go generator queries 0 "system" stop_table
        show_all
      ≡ reply a)
    × (map (λ s. s.id) a ≡ "c" ∷ "a" ∷ "b" ∷ [])
build_stops_response-total_example =
    build_stops_response-total go generator "system" queries (λ pk. pk == 7) queries-Consistent 0
      stop_table show_all

abbrev raw : RawStopData ℕ
raw = record {
  stop_pk_to_descendent_pks = (1, 1 ∷ 2 ∷ []) ∷ (2, 2 ∷ []) ∷ (3, 3 ∷ []) ∷ [];
  transfers = [];
  alerts = record { stop_pk = 2; id = "alert"; cause = "STRIKE"; effect = "DETOUR" } ∷ [];
  stop_times = [];
  trip_destinations = [];
  service_maps = [];
  service_map_config_ids = [];
  headsign_rules = [];
  all_stops = [];
  all_routes = [];
  stop_pk_to_child_pks = [];
}

api_alerts-descendents_example :
    (alert : AlertReference) × Memᴰ alert
      (list_at 1 (stop_pk_to_api_alerts go generator "system" raw))
unfolding descendents_of_rows insert lookup
api_alerts-descendents_example = (
  alert_reference go generator "alert" "system" "STRIKE" "DETOUR",
  (api_alerts-descendents go generator "system" raw descendent_pairs [] 1
        (alert_reference go generator "alert" "system" "STRIKE" "DETOUR")
        (record { id = ""; from_stop = none; to_stop = none; kind = 0; min_transfer_time = none })
        refl).0.1
      (_, Memᴰ.head refl, refl, refl),
)
