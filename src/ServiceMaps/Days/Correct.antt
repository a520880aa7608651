-- ===== src/ServiceMaps/Days/Correct.antt =====
-- Which services `buildIncludedServiceIDs` includes.
use Prim.Native.String.{String}
use mathlib.Core.Path.{fun_ext}
use text.Mathlib.TextEquality.{eq_iff}
use transiter.Base.{
  Bool, List, [], ap, arith, contains, foldl, length, map, nat_keys, not, string_keys, true, ◌&&◌,
  ◌<◌, ◌==◌, ◌||◌, ◌∙◌, ◌∷◌, ◌≡◌,
}
use transiter.Base.Maps.{Map, insert, lookup, lookup-insert}
use transiter.Graph.Types.{edge_keys}
use transiter.ServiceMaps.Days.{
  ServiceIds, allow_days, build_included_service_ids, first_allowed, first_service, holds,
  include_service, include_services, is_allowed, mark_running, runs_on, week,
}
use transiter.ServiceMaps.Types.{GoLib, ScheduledTrip, Service, ServiceMapConfig, options_of}

holds-insert :
    (k j : String) (m : Map String Bool) → holds (insert k true m) j ≡ (k == j || holds m j)
holds-insert k j m = ground (arith, lookup-insert k j true m)

holds-mark_running :
    (allowed : Map String Bool) (id k : String) (days : List (String × Bool))
    (included : Map String Bool)
    → holds (mark_running allowed id days included) k
      ≡ (holds included k || id == k && runs_on (holds allowed) days)
unfolding mark_running runs_on
holds-mark_running allowed id k [] included = ground arith
holds-mark_running allowed id k ((day, running) ∷ rest) included =
    ground (arith, holds-mark_running allowed id k rest included, holds-insert id k included)

length-insert : (k : String) (v : Bool) (m : Map String Bool) → 0 < length (insert k v m)
unfolding insert
length-insert k v [] = omega arith
length-insert k v ((j, w) ∷ m) = ground arith

module _ (to_lower : String → String) where
  allow : Map String Bool → String → Map String Bool
  allow allowed day = insert (to_lower day) true allowed

  holds-allow :
      (m : Map String Bool) (days : List String) (d : String)
      → holds (foldl allow m days) d ≡ (holds m d || contains (map to_lower days) d)
  unfolding allow
  holds-allow m [] d = ground arith
  holds-allow m (day ∷ days) d =
      ground (arith, holds-allow (allow m day) days d, holds-insert (to_lower day) d m)

  length-allow :
      (m : Map String Bool) (days : List String)
      → (length (foldl allow m days) == 0) ≡ (length m == 0 && length (map to_lower days) == 0)
  unfolding allow
  length-allow m [] = ground arith
  length-allow m (day ∷ days) =
      ground (arith, length-allow (allow m day) days, length-insert (to_lower day) true m)

-- What one trip adds to the two sets, for the days of a configuration in small letters.
module _ (allowed : Map String Bool) (days : List String) (same : holds allowed ≡ contains days)
    (empty : (length allowed == 0) ≡ (length days == 0)) where
  included-include_service :
      (ids : ServiceIds) (s : Service) (k : String)
      → holds (include_service allowed ids s).included k
        ≡ (holds ids.included k || s.id == k && not (holds ids.excluded k) && is_allowed days s)
  unfolding include_service is_allowed
  included-include_service ids s k = ground (
    arith,
    holds-mark_running allowed s.id k (week s) ids.included,
    holds-insert s.id k ids.included,
    eq_iff s.id k,
    ap (λ p. runs_on p (week s)) same,
    empty,
  )

  excluded-include_service :
      (ids : ServiceIds) (s : Service) (k : String)
      → holds (include_service allowed ids s).excluded k ≡ (
          holds ids.excluded k
          || s.id == k && not (holds ids.included k) && not (is_allowed days s))
  unfolding include_service is_allowed
  excluded-include_service ids s k = ground (
    arith,
    holds-mark_running allowed s.id s.id (week s) ids.included,
    holds-insert s.id k ids.excluded,
    eq_iff s.id k,
    eq_iff s.id s.id,
    ap (λ p. runs_on p (week s)) same,
    empty,
  )

  included-include_services :
      (ids : ServiceIds) (trips : List ScheduledTrip) (k : String)
      → holds (include_services allowed ids trips).included k ≡ (
          holds ids.included k
          || not (holds ids.excluded k) && first_allowed days (first_service k trips))
  unfolding include_services
  included-include_services ids [] k = ground arith
  included-include_services ids (trip ∷ trips) k =
      included-include_services (include_service allowed ids trip.service) trips k
      ∙ ground (
        arith,
        included-include_service ids trip.service k,
        excluded-include_service ids trip.service k,
      )

pub build_included_service_ids_lem :
    (lib : GoLib) (smc : ServiceMapConfig lib.Float) (trips : List ScheduledTrip) (k : String)
    → holds (build_included_service_ids lib smc trips) k
      ≡ first_allowed (map lib.to_lower (options_of smc).days) (first_service k trips)
unfolding build_included_service_ids allow lookup
build_included_service_ids_lem lib smc trips k =
    let none_yet : ServiceIds = record { excluded = []; included = [] } in
    let days = (options_of smc).days in
    included-include_services (allow_days lib.to_lower days) (map lib.to_lower days)
      (fun_ext (holds-allow lib.to_lower [] days))
      (length-allow lib.to_lower [] days ∙ ground arith) none_yet trips k
