-- ===== src/Admin/Tasks.antt =====
-- The requests of internal/admin/admin.go and the goroutines that they start: InstallOrUpdateSystem
-- and DeleteSystem as steps of a server. Between the transactions of an install other requests run.
use Prim.Native.String.{String}
use transiter.Base.{
  Bool, List, Option, [], false, nat_keys, none, some, string_keys, true, ◌++◌, ◌∷◌, ◌≡◌,
}
use transiter.Admin.Feeds.{FeedQueries, SystemConfig, perform_install}
use transiter.Admin.Systems.{
  Committed, SystemQueries, committed, delete_system_entry, mark_system_install_finished,
  rolled_back, upsert_system_entry,
}
use transiter.Base.Int.{int_keys}

-- A goroutine of InstallOrUpdateSystem, before and after performInstall.
pub data Task (Configs : Type 0) : Type 0 where
  to_perform : String → SystemConfig Configs → Task Configs
  to_mark : String → Bool → Task Configs

-- The database, the goroutines, the systems whose reset the scheduler was asked for, and those of the
-- log lines "failed to mark install or update finished".
pub record Server (Db Configs : Type 0) : Type 0 where
  pub db : Db
  pub tasks : List (Task Configs)
  pub resets : List String
  pub failed_marks : List String

module _ {Db Configs : Type 0} (q : SystemQueries Db) (f : FeedQueries Db Configs) where
  abbrev pub start_task :
      Server Db Configs → String → SystemConfig Configs → Committed Db Bool → Server Db Configs
  start_task s id config rolled_back = s
  start_task s id config (committed false db) = record s { db = db }
  start_task s id config (committed true db) = record s {
    db = db;
    tasks = s.tasks ++ to_perform id config ∷ [];
  }

  -- InstallOrUpdateSystem, once the configuration is read.
  unfoldable pub install_or_update :
      Server Db Configs → String → SystemConfig Configs → Bool → Server Db Configs
  unfolding upsert_system_entry
  install_or_update s id config install_only =
      start_task s id config (upsert_system_entry q s.db id config.name install_only)

  abbrev pub after_mark :
      Server Db Configs → String → List (Task Configs) → Option Db → Server Db Configs
  after_mark s id tasks none = record s { tasks = tasks; failed_marks = s.failed_marks ++ id ∷ [] }
  after_mark s id tasks (some db) = record s {
    db = db;
    tasks = tasks;
    resets = s.resets ++ id ∷ [];
  }

  -- The goroutine's parts: performInstall, and the transaction that marks its end.
  unfoldable pub run_task :
      Server Db Configs → Task Configs → List (Task Configs) → Server Db Configs
  unfolding perform_install mark_system_install_finished
  run_task s (to_perform id config) others =
      let (fails, db) = perform_install q f s.db id config in
      record s { db = db; tasks = to_mark id fails ∷ others }
  run_task s (to_mark id fails) others =
      after_mark s id others (mark_system_install_finished q s.db id fails)

  abbrev pub after_delete : Server Db Configs → String → Option Db → Server Db Configs
  after_delete s id none = s
  after_delete s id (some db) = record s { db = db; resets = s.resets ++ id ∷ [] }

  -- DeleteSystem
  unfoldable pub delete_request : Server Db Configs → String → Server Db Configs
  unfolding delete_system_entry
  delete_request s id = after_delete s id (delete_system_entry q s.db id)

  pub data Step : Server Db Configs → Server Db Configs → Type 0 where
    install_requested :
        {s : Server Db Configs} (id : String) (config : SystemConfig Configs) (install_only : Bool)
        → Step s (install_or_update s id config install_only)
    delete_requested : {s : Server Db Configs} (id : String) → Step s (delete_request s id)
    task_run :
        {s : Server Db Configs} (before : List (Task Configs)) (task : Task Configs)
        (after : List (Task Configs))
        → s.tasks ≡ before ++ task ∷ after
        → Step s (run_task s task (before ++ after))

  pub data Reach (first : Server Db Configs) : Server Db Configs → Type 0 where
    no_step : Reach first first
    then_step : {s t : Server Db Configs} → Reach first s → Step s t → Reach first t
