-- ===== src/Scheduler/Systems.antt =====
-- The schedulers of systems: `systemScheduler.run` and `runWithClock` of
-- internal/scheduler/scheduler.go. A running scheduler of a system is the map from the feeds that it
-- runs to their configurations; stopping one removes it.
pub mod ResetAllLaws
use Prim.Native.String.{String}
use transiter.Base.{
  Bool, List, Option, [], contains, false, if◌then◌else◌, nat_keys, none, some, string_keys, suc,
  true, ℕ, ◌∷◌,
}
use transiter.Base.Int.{int_keys}
use transiter.Base.Maps.{Map, delete, insert, keys}
use transiter.Scheduler.Policy.{ApiAgency, GoTime, normalize_scheduling_policy}
use transiter.Update.Config.{FeedConfig, SchedulingPolicy, policy_none}

module _ (lib : GoTime) where
  -- The answers of the admin and public services to the requests of a reset.
  pub data SystemConfigResponse : Type 0 where
    system_feeds : List (FeedConfig lib.Float) → SystemConfigResponse
    system_not_found : SystemConfigResponse
    system_error : String → SystemConfigResponse

  pub record Services : Type 0 where
    pub get_system_config : String → SystemConfigResponse
    -- None if the request fails.
    pub list_agencies : String → Option (List ApiAgency)
    pub list_systems : Option (List String)

  abbrev pub FeedSchedulers : Type 0
  FeedSchedulers = Map String (FeedConfig lib.Float)

  abbrev pub SystemSchedulers : Type 0
  SystemSchedulers = Map String FeedSchedulers

  -- `case msg := <-s.resetRequest` of a system: each feed scheduler is stopped, and one is started
  -- for each configuration.
  unfoldable pub start_feeds : List (FeedConfig lib.Float) → FeedSchedulers → FeedSchedulers
  start_feeds [] running = running
  start_feeds (fc ∷ fcs) running = start_feeds fcs (insert fc.id fc running)

  abbrev pub reset_feeds : List (FeedConfig lib.Float) → FeedSchedulers
  reset_feeds fcs = start_feeds fcs []

  abbrev pub is_none : SchedulingPolicy → Bool
  is_none policy_none = true
  is_none _ = false

  -- The loop over the feeds of a system, from a position on.
  unfoldable pub normalized_feeds :
      ℕ → List ApiAgency → List (FeedConfig lib.Float) → List (FeedConfig lib.Float)
  normalized_feeds i agencies [] = []
  normalized_feeds i agencies (feed ∷ feeds) =
      let normalized = normalize_scheduling_policy lib feed i agencies in
      let rest = normalized_feeds (suc i) agencies feeds in
      if is_none normalized.scheduling_policy then rest else normalized ∷ rest

  -- `stopScheduler` or `resetScheduler`
  abbrev pub run_feeds : String → List (FeedConfig lib.Float) → SystemSchedulers → SystemSchedulers
  run_feeds system_id [] running = delete system_id running
  run_feeds system_id (fc ∷ fcs) running = insert system_id (reset_feeds (fc ∷ fcs)) running

  -- The error, if any, and the schedulers afterwards.
  unfoldable pub reset_system :
      Services → String → SystemSchedulers → Option String × SystemSchedulers
  unfolding normalized_feeds start_feeds
  reset_system s system_id running = elim (s.get_system_config system_id) [
    | system_not_found ↦ (none, delete system_id running)
    | system_error e ↦ (some "failed to get system config", running)
    | system_feeds feeds ↦ elim (s.list_agencies system_id) [
      | none ↦ (some "failed to list agencies", running)
      | some agencies ↦ (none, run_feeds system_id (normalized_feeds 0 agencies feeds) running)
    ]
  ]

  pub record ResetAll : Type 0 where
    pub error : Option String
    pub updated : Map String Bool
    pub running : SystemSchedulers

  -- The loop over the systems, which ends at the first error.
  unfoldable pub reset_systems : Services → List String → ResetAll → ResetAll
  unfolding reset_system
  reset_systems s [] r = r
  reset_systems s (id ∷ ids) r =
      let (error, running) = reset_system s id r.running in
      let next =
        reset_systems s ids
          (record { error = none; updated = insert id true r.updated; running = running }) in
      elim error [ some e ↦ record r { error = some e; running = running } | none ↦ next ]

  -- `if updatedSystems[systemID] { continue }; stopScheduler(systemID)`
  unfoldable pub stop_others : Map String Bool → SystemSchedulers → SystemSchedulers
  stop_others updated [] = []
  stop_others updated ((id, feeds) ∷ rest) =
      let kept = stop_others updated rest in
      if contains (keys updated) id then (id, feeds) ∷ kept else kept

  -- `case msg := <-s.resetAllRequest`
  unfoldable pub reset_all : Services → SystemSchedulers → Option String × SystemSchedulers
  unfolding reset_systems stop_others
  reset_all s running = elim s.list_systems [
    | none ↦ (some "failed to get systems data", running)
    | some ids ↦
        let r = reset_systems s ids (record { error = none; updated = []; running = running }) in
        (r.error, stop_others r.updated r.running)
  ]
