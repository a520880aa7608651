-- ===== src/Public/Stops/Handlers.antt =====
-- The handlers ListStops and GetStop of internal/public/endpoints/stop.go.
use Prim.Native.String.{String}
use transiter.Base.{
  Bool, List, Option, [], false, if◌then◌else◌, map, nat_keys, none, not, some, string_keys, true,
  ◌&&◌, ◌==◌, ◌||◌, ◌∷◌,
}
use transiter.Base.Int.{int_keys, ℤ}
use transiter.Public.Pages.{cut_page, next_int32, page_limit}
use transiter.Public.Reference.{Generator, PublicLibrary}
use transiter.Public.Results.{
  DbSystem, Response, and_then, failed, get_in_system, get_system, invalid_argument, of_query,
  panics, reply,
}
use transiter.Public.Stops.{DbStop, ListStopsRequest, Skip, StopQueries}
use transiter.Public.Stops.Build.{build_stops_response}
use transiter.Public.Stops.Response.{ApiStop}

-- `req.GetX() && ...`: the checks of a request for stops before the query.
unfoldable pub invalid_filters : Bool → Bool → Bool → Bool → Option String
invalid_filters filter_by_id has_ids filter_by_type has_types =
    if not filter_by_id && has_ids
    then some "filter_by_id is false but IDs were provided"
    else if not filter_by_type && has_types
    then some "filter_by_type is false but types were provided"
    else none

abbrev pub is_nonempty {ℓ} : {A : Type ℓ} → List A → Bool
is_nonempty [] = false
is_nonempty (_ ∷ _) = true

abbrev pub first_id_of : Option String → String
first_id_of none = ""
first_id_of (some id) = id

unfoldable pub check {ℓ} : {A : Type ℓ} → Option String → Response A → Response A
check none r = r
check (some text) r = failed (invalid_argument text)

-- `apiStops[0]`
unfoldable pub first_of {ℓ} : {A : Type ℓ} → List A → Response A
first_of [] = panics
first_of (a ∷ _) = reply a

module _ (lib : PublicLibrary) where
  -- convert.Gps
  unfoldable pub gps_point : Option lib.Float → Option lib.Float → lib.Geography
  gps_point (some longitude) (some latitude) = lib.point longitude latitude
  gps_point _ _ = lib.no_point

  -- The arguments of a search by distance, which must all be present, and no first ID.
  unfoldable pub distance_arguments :
      Option lib.Float
      → Option lib.Float
      → Option lib.Float
      → String
      → Response (lib.Geography × lib.Float)
  unfolding gps_point
  distance_arguments (some latitude) (some longitude) (some max_distance) first_id =
      if first_id == ""
      then reply (gps_point (some longitude) (some latitude), max_distance)
      else failed (invalid_argument "first_id can not be used when using DISTANCE search_mode")
  distance_arguments _ _ _ first_id = failed (
      invalid_argument
        "latitude, longitude, and max_distance are required when using DISTANCE search_mode")

module _ (lib : PublicLibrary) {R : Type 0} (q : StopQueries lib R) where
  -- The stops that ListStops reads, by the search mode.
  unfoldable pub read_stops :
      ListStopsRequest lib R → DbSystem → ℤ → String → Response (List (DbStop R))
  unfolding distance_arguments next_int32
  read_stops req system num_stops first_id =
      if req.by_distance
      then and_then (distance_arguments lib req.latitude req.longitude req.max_distance first_id)
          (λ p. of_query (
            q.list_stops_geographic (record {
              system_pk = system.pk;
              base = p.0;
              max_distance = p.1;
              max_results = num_stops;
              filter_by_type = req.filter_by_type;
              types = map lib.stop_type_name req.types;
            })))
      else of_query (
          q.list_stops (record {
            system_pk = system.pk;
            first_stop_id = first_id;
            num_stops = next_int32 num_stops;
            filter_by_id = req.only_return_specified_ids || req.filter_by_id;
            stop_ids = req.ids;
            filter_by_type = req.filter_by_type;
            types = map lib.stop_type_name req.types;
          }))

module _ (lib : PublicLibrary) (g : Generator) {R : Type 0} (q : StopQueries lib R)
    (now : lib.Time) where
  unfoldable pub get_stop_reply : String → String → Skip → Response (ApiStop R)
  unfolding get_in_system build_stops_response first_of
  get_stop_reply system_id stop_id skip =
      and_then (get_in_system lib.quoted q.query_system "stop" q.query_stop system_id stop_id)
        (λ p. and_then (build_stops_response lib g q now system_id (p.1 ∷ []) skip) first_of)

module _ (lib : PublicLibrary) (g : Generator) {R : Type 0} (q : StopQueries lib R) (now : lib.Time)
    (max_entities : ℤ) where
  -- The stops and the next ID of the reply. The monitoring of the deprecated field is left out.
  unfoldable pub list_stops_reply :
      ListStopsRequest lib R → Response (List (ApiStop R) × Option String)
  unfolding get_system invalid_filters check page_limit read_stops cut_page next_int32
      build_stops_response
  list_stops_reply req = and_then (get_system lib.quoted q.query_system req.system_id) (λ system.
      check
        (invalid_filters (req.only_return_specified_ids || req.filter_by_id) (is_nonempty req.ids)
          req.filter_by_type (is_nonempty req.types))
        (let num_stops = page_limit max_entities req.limit in
          and_then (read_stops lib q req system num_stops (first_id_of req.first_id)) (λ stops.
            and_then (cut_page (λ s. s.id) (next_int32 num_stops) stops) (λ p.
              and_then (build_stops_response lib g q now req.system_id p.0 req.skip)
                (λ api_stops. reply (api_stops, p.1))))))
