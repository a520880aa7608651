-- ===== src/ServiceMaps/Days.antt =====
-- `buildIncludedServiceIDs`: the services that run on one of the days of a configuration.
pub mod Correct
use Prim.Native.String.{String}
use transiter.Base.{
  Bool, List, Option, [], contains, false, foldl, if◌then◌else◌, length, nat_keys, none, not, some,
  string_keys, true, ◌&&◌, ◌==◌, ◌||◌, ◌∷◌,
}
use transiter.Base.Maps.{Map, insert, lookup}
use transiter.Graph.Types.{edge_keys}
use transiter.ServiceMaps.Types.{GoLib, ScheduledTrip, Service, ServiceMapConfig, options_of}

-- The loop over the days of the configuration.
unfoldable pub allow_days : (String → String) → List String → Map String Bool
allow_days to_lower days = foldl (λ allowed day. insert (to_lower day) true allowed) [] days

unfoldable pub week : Service → List (String × Bool)
week s =
    ("monday", s.monday)
    ∷ ("tuesday", s.tuesday)
    ∷ ("wednesday", s.wednesday)
    ∷ ("thursday", s.thursday)
    ∷ ("friday", s.friday)
    ∷ ("saturday", s.saturday)
    ∷ ("sunday", s.sunday)
    ∷ []

-- The value of a key of a Go map of booleans, false if it is missing.
abbrev pub holds : Map String Bool → String → Bool
holds m k = elim (lookup k m) [ none ↦ false | some b ↦ b ]

pub record ServiceIds : Type 0 where
  pub excluded : Map String Bool
  pub included : Map String Bool

-- The loop over the days of the week, which ends at the first match.
unfoldable pub mark_running :
    Map String Bool → String → List (String × Bool) → Map String Bool → Map String Bool
mark_running allowed id [] included = included
mark_running allowed id ((day, running) ∷ rest) included =
    let later = mark_running allowed id rest included in
    if running && holds allowed day then insert id true included else later

-- One round of the loop over the trips.
unfoldable pub include_service : Map String Bool → ServiceIds → Service → ServiceIds
include_service allowed ids service =
    let marked = mark_running allowed service.id (week service) ids.included in
    if holds ids.excluded service.id || holds ids.included service.id
    then ids
    else if length allowed == 0
    then record ids { included = insert service.id true ids.included }
    else record {
      included = marked;
      excluded =
          if not (holds marked service.id)
          then insert service.id true ids.excluded
          else ids.excluded;
    }

unfoldable pub include_services : Map String Bool → ServiceIds → List ScheduledTrip → ServiceIds
unfolding include_service
include_services allowed ids [] = ids
include_services allowed ids (trip ∷ trips) =
    include_services allowed (include_service allowed ids trip.service) trips

unfoldable pub build_included_service_ids :
    (lib : GoLib) → ServiceMapConfig lib.Float → List ScheduledTrip → Map String Bool
unfolding include_services allow_days
build_included_service_ids lib smc trips =
    (include_services (allow_days lib.to_lower (options_of smc).days)
      (record { excluded = []; included = [] }) trips).included

-- Whether a service runs on one of the days of a predicate, and whether a configuration with the
-- given days, in small letters, allows it; without days it allows every service.
unfoldable pub runs_on : (String → Bool) → List (String × Bool) → Bool
runs_on p [] = false
runs_on p ((day, running) ∷ rest) = running && p day || runs_on p rest

unfoldable pub is_allowed : List String → Service → Bool
is_allowed days s = length days == 0 || runs_on (contains days) (week s)

-- The service of the first trip whose service has a given ID.
abbrev pub first_service : String → List ScheduledTrip → Option Service
first_service id [] = none
first_service id (trip ∷ trips) =
    let later = first_service id trips in if trip.service.id == id then some trip.service else later

abbrev pub first_allowed : List String → Option Service → Bool
first_allowed days none = false
first_allowed days (some s) = is_allowed days s
