-- ===== src/Scheduler/Systems/ResetAllLaws.antt =====
-- The schedulers that run after a reset of all systems.
use Prim.Native.String.{String}
use transiter.Base.{
  Bool, List, Option, Option-cases, [], arith, contains, if◌then◌else◌, inl, inr, nat_keys, none,
  refl, some, string_keys, true, ◌==◌, ◌||◌, ◌↔◌, ◌∷◌, ◌≡◌,
}
use transiter.Base.Int.{int_keys}
use transiter.Base.Maps.{
  Map, contains-keys-insert, insert, keys, lookup, lookup-delete, lookup-insert,
}
use transiter.Scheduler.Policy.{ApiAgency, GoTime}
use transiter.Scheduler.Systems.{
  FeedSchedulers, ResetAll, Services, SystemConfigResponse, SystemSchedulers, normalized_feeds,
  reset_all, reset_feeds, reset_system, reset_systems, run_feeds, stop_others, system_error,
  system_feeds, system_not_found,
}
use transiter.Update.Config.{FeedConfig}

module _ (lib : GoTime) (s : Services lib) where
  abbrev pub agencies_feeds :
      List (FeedConfig lib.Float) → Option (List ApiAgency) → Option (List (FeedConfig lib.Float))
  agencies_feeds feeds none = none
  agencies_feeds feeds (some agencies) = some (normalized_feeds lib 0 agencies feeds)

  abbrev pub response_feeds :
      SystemConfigResponse lib → Option (List ApiAgency) → Option (List (FeedConfig lib.Float))
  response_feeds system_not_found agencies = some []
  response_feeds (system_error e) agencies = none
  response_feeds (system_feeds feeds) agencies = agencies_feeds feeds agencies

  -- The feeds that are to run for a system, none if the services give an error.
  abbrev pub expected_feeds : String → Option (List (FeedConfig lib.Float))
  expected_feeds id = response_feeds (s.get_system_config id) (s.list_agencies id)

  -- A system is run when it has feeds to run.
  abbrev pub scheduler_of : Option (List (FeedConfig lib.Float)) → Option (FeedSchedulers lib)
  scheduler_of none = none
  scheduler_of (some []) = none
  scheduler_of (some (fc ∷ fcs)) = some (reset_feeds lib (fc ∷ fcs))

  -- The systems before the first for which the services give an error.
  abbrev pub answered : List String → List String
  answered [] = []
  answered (id ∷ ids) =
      let rest = answered ids in elim (expected_feeds id) [ none ↦ [] | some fcs ↦ id ∷ rest ]

  lookup-run_feeds :
      (id k : String) (fcs : List (FeedConfig lib.Float)) (m : SystemSchedulers lib)
      → lookup k (run_feeds lib id fcs m)
        ≡ (if id == k then scheduler_of (some fcs) else lookup k m)
  lookup-run_feeds id k [] m = ground (arith, lookup-delete id k m)
  lookup-run_feeds id k (fc ∷ fcs) m =
      ground (arith, lookup-insert id k (reset_feeds lib (fc ∷ fcs)) m)

  -- The result of the reset of one system.
  abbrev Outcome :
      Option (List (FeedConfig lib.Float))
      → String
      → SystemSchedulers lib
      → Option String × SystemSchedulers lib
      → Type 0
  Outcome none id m r = ((e : String) × (r.0 ≡ some e)) × (r.1 ≡ m)
  Outcome (some fcs) id m r = (r.0 ≡ none) × (r.1 ≡ run_feeds lib id fcs m)

  reset_system-Outcome :
      (id : String) (m : SystemSchedulers lib)
      → Outcome (expected_feeds id) id m (reset_system lib s id m)
  unfolding reset_system
  reset_system-Outcome id m = from (s.get_system_config id) refl
    where
      from :
          (response : SystemConfigResponse lib)
          → s.get_system_config id ≡ response
          → Outcome (expected_feeds id) id m (reset_system lib s id m)
      from system_not_found e = rw e (ground arith, ground arith)
      from (system_error text) e =
          rw e (("failed to get system config", ground arith), ground arith)
      from (system_feeds feeds) e = elim (Option-cases (s.list_agencies id)) [
        | inl fails ↦ rw (e, fails) (("failed to list agencies", ground arith), ground arith)
        | inr (agencies, answers) ↦ rw (e, answers) (ground arith, ground arith)
      ]

  -- What the loop over the systems leaves for one system.
  abbrev Left : String → List String → ResetAll lib → ResetAll lib → Type 0
  Left k ids r t =
      (lookup k t.running ≡ (
        if contains (answered ids) k then scheduler_of (expected_feeds k) else lookup k r.running))
      × (contains (keys t.updated) k ≡ (contains (answered ids) k || contains (keys r.updated) k))
      × ((t.error ≡ none) ↔ (answered ids ≡ ids))

  reset_systems-Left :
      (k : String) (ids : List String) (r : ResetAll lib)
      → r.error ≡ none
      → Left k ids r (reset_systems lib s ids r)
  unfolding reset_systems
  reset_systems-Left k [] r ok = (refl, refl, (λ e. refl, λ e. ok))
  reset_systems-Left k (id ∷ ids) r ok =
      let one = reset_system-Outcome id r.running in
      let next : ResetAll lib = record {
        error = none;
        updated = insert id true r.updated;
        running = (reset_system lib s id r.running).1;
      } in
      let later = reset_systems-Left k ids next refl in
      elim (Option-cases (expected_feeds id)) [
        | inl fails ↦
            let ((e, failed), same) = rw fails at one in (ground arith, ground arith, ground arith)
        | inr (fcs, answers) ↦
            let (ok', changed) = rw answers at one in
            (
              ground
                  (arith, string_keys.same_iff id k, later.0, lookup-run_feeds id k fcs r.running),
              ground (
                arith,
                string_keys.same_iff id k,
                later.1,
                contains-keys-insert id k true r.updated,
              ),
              (λ n. ground (arith, later.2.0), λ e. ground (arith, later.2.1)),
            )
      ]

  lookup-stop_others :
      (k : String) (updated : Map String Bool) (m : SystemSchedulers lib)
      → lookup k (stop_others lib updated m)
        ≡ (if contains (keys updated) k then lookup k m else none)
  unfolding lookup stop_others
  lookup-stop_others k updated [] = ground arith
  lookup-stop_others k updated ((id, feeds) ∷ rest) =
      ground (arith, string_keys.same_iff id k, lookup-stop_others k updated rest)

  pub reset_all_lem :
      (running : SystemSchedulers lib) (ids : List String)
      → s.list_systems ≡ some ids
      → ((k : String)
          → lookup k (reset_all lib s running).1
            ≡ (if contains (answered ids) k then scheduler_of (expected_feeds k) else none))
        × (((reset_all lib s running).0 ≡ none) ↔ (answered ids ≡ ids))
  unfolding reset_all
  reset_all_lem running ids listed =
      let start : ResetAll lib = record { error = none; updated = []; running = running } in
      let r = reset_systems lib s ids start in
      rw listed (
        λ k.
            let left = reset_systems-Left k ids start refl in
            ground (arith, left.0, left.1, lookup-stop_others k r.updated r.running),
        (reset_systems-Left "" ids start refl).2,
      )
