-- ===== src/Admin/Tracked.antt =====
-- The invariant of the servers that internal/admin/admin.go reaches, on installs in progress and
-- their goroutines.
use Prim.Native.String.{String}
use transiter.Base.{
  Bool, Bool-cases, List, Option, Option-cases, [], ap, arith, contains, contains-append, false,
  inl, inr, map, nat_keys, none, refl, some, string_keys, sym, true, ◌&&◌, ◌++◌, ◌==◌, ◌||◌, ◌∙◌,
  ◌∷◌, ◌≡◌, ◌≢◌, ◌⊎◌,
}
use transiter.Admin.Feeds.{FeedQueries, SystemConfig}
use transiter.Admin.Statuses.{
  Queried-cases, SetsStatus, StatusLaws, is_busy, perform_install-SameStatuses, status_of,
  task_system,
}
use transiter.Admin.Systems.{
  SystemQueries, SystemStatus, active, committed, delete_system_entry, finished_status,
  install_failed, installing, is_active, mark_system_install_finished, update_failed, updating,
  upsert_system_entry,
}
use transiter.Admin.Tasks.{
  Reach, Server, Task, after_mark, delete_request, delete_requested, install_or_update,
  install_requested, no_step, run_task, start_task, task_run, then_step, to_mark, to_perform,
}
use transiter.Base.Int.{int_keys}
use transiter.Graph.Sort.{start}
use transiter.Public.Results.{no_rows, query_failure}

final_not_busy :
    (fails : Bool) (status : SystemStatus) → is_busy (finished_status fails status) ≢ true
unfolding finished_status
final_not_busy true installing h = cc h
final_not_busy true active h = cc h
final_not_busy true install_failed h = cc h
final_not_busy true update_failed h = cc h
final_not_busy true updating h = cc h
final_not_busy false status h = cc h

module _ {Db Configs : Type 0} (q : SystemQueries Db) (f : FeedQueries Db Configs) where
  abbrev pub busy_in : Option SystemStatus → Bool
  busy_in none = false
  busy_in (some status) = is_busy status

  abbrev pub task_systems : List (Task Configs) → List String
  task_systems tasks = map task_system tasks

  -- A system that is being installed or updated has a goroutine, or one that failed to mark its end.
  abbrev pub IsTracked : Server Db Configs → Type 0
  IsTracked s =
      (id : String)
      → busy_in (status_of q f s.db id) ≡ true
      → (contains (task_systems s.tasks) id || contains s.failed_marks id) ≡ true

  task_systems-append :
      (xs ys : List (Task Configs)) → task_systems (xs ++ ys) ≡ task_systems xs ++ task_systems ys
  task_systems-append [] ys = refl
  task_systems-append (x ∷ xs) ys = ap (λ ids. task_system x ∷ ids) (task_systems-append xs ys)

  contains-task_systems :
      (xs ys : List (Task Configs)) (id : String)
      → contains (task_systems (xs ++ ys)) id
        ≡ (contains (task_systems xs) id || contains (task_systems ys) id)
  contains-task_systems xs ys id =
      ap (λ ids. contains ids id) (task_systems-append xs ys)
      ∙ contains-append (task_systems xs) (task_systems ys) id

  module _ (laws : StatusLaws q f) where
    -- Which systems are busy once the status of one is written.
    busy_after :
        (db after : Db) (id : String) (status : Option SystemStatus) (other : String)
        → SetsStatus q f db after id status
        → busy_in (status_of q f after other) ≡ true
        → (busy_in (status_of q f db other) ≡ true)
          ⊎ (((id == other) ≡ true) × (busy_in status ≡ true))
    busy_after db after id status other sets busy = elim (Bool-cases (id == other)) [
      | inl same ↦ inr (same, sym (ap busy_in (sets other ∙ rw same refl)) ∙ busy)
      | inr apart ↦ inl (sym (ap busy_in (sets other ∙ rw apart refl)) ∙ busy)
    ]

    start-IsTracked :
        (s : Server Db Configs) (id : String) (config : SystemConfig Configs) (db : Db)
        (status : SystemStatus)
        → SetsStatus q f s.db db id (some status)
        → IsTracked s
        → IsTracked (start_task q f s id config (committed true db))
    start-IsTracked s id config db status sets h other busy =
        rw (contains-task_systems s.tasks (to_perform id config ∷ []) other)
          (elim (busy_after s.db db id (some status) other sets busy) [
            | inl before ↦ ground (arith, h other before)
            | inr (same, _) ↦ ground (arith, same)
          ])

    install-IsTracked :
        (s : Server Db Configs) (id : String) (config : SystemConfig Configs) (only : Bool)
        → IsTracked s
        → IsTracked (install_or_update q f s id config only)
    unfolding install_or_update upsert_system_entry
    install-IsTracked s id config only h = elim (Queried-cases (q.system_of s.db id)) [
      | inr (no_rows, missing) ↦
          rw (missing, upsert_system_entry)
            (elim (Option-cases (q.insert_system s.db id config.name installing)) [
              | inl fails ↦ rw fails h
              | inr (db, inserted_row) ↦ rw inserted_row (
                  start-IsTracked s id config db installing
                    (laws.inserts s.db db id config.name installing inserted_row) h)
            ])
      | inr (query_failure text, error) ↦ rw (error, upsert_system_entry) h
      | inl (row, known) ↦
          rw (known, upsert_system_entry)
            (elim (Bool-cases (only && is_active row.status)) [
              | inl declined ↦ rw declined h
              | inr accepted ↦ elim (Option-cases (q.update_system_status s.db row.pk updating)) [
                | inl fails ↦ rw (accepted, fails) h
                | inr (db, marked) ↦
                    let sets = laws.updates s.db db id row updating known marked in
                    rw (accepted, marked) (start-IsTracked s id config db updating sets h)
              ]
            ])
    ]

    delete-IsTracked :
        (s : Server Db Configs) (id : String) → IsTracked s → IsTracked (delete_request q f s id)
    unfolding delete_request delete_system_entry
    delete-IsTracked s id h = elim (Queried-cases (q.system_of s.db id)) [
      | inr (error, missing) ↦ rw (missing, delete_system_entry) h
      | inl (row, known) ↦
          rw (known, delete_system_entry)
            (elim (Option-cases (q.delete_system s.db row.pk)) [
              | inl fails ↦ rw fails h
              | inr (db, deleted) ↦ rw deleted (λ other busy.
                  elim (busy_after s.db db id none other (laws.deletes s.db db id row known deleted)
                    busy) [ inl before ↦ h other before | inr (_, never) ↦ absurd (cc never) ])
            ])
    ]

    tracked_without :
        (s : Server Db Configs) (before after : List (Task Configs)) (task : Task Configs)
        (other : String)
        → s.tasks ≡ before ++ task ∷ after
        → (task_system task == other) ≡ false
        → (contains (task_systems s.tasks) other || contains s.failed_marks other) ≡ true
        → (contains (task_systems (before ++ after)) other || contains s.failed_marks other) ≡ true
    tracked_without s before after task other e apart inside = ground (
      arith,
      contains-task_systems before after other,
      contains-task_systems before (task ∷ after) other,
      apart,
      rw e at inside,
    )

    -- A mark that fails is logged.
    logged-IsTracked :
        (s : Server Db Configs) (before after : List (Task Configs)) (id : String) (fails : Bool)
        → s.tasks ≡ before ++ to_mark id fails ∷ after
        → IsTracked s
        → IsTracked (after_mark q f s id (before ++ after) none)
    logged-IsTracked s before after id fails e h other busy = elim (Bool-cases (id == other)) [
      | inl same ↦ ground (arith, contains-append s.failed_marks (id ∷ []) other, same)
      | inr apart ↦ ground (
        arith,
        contains-append s.failed_marks (id ∷ []) other,
        apart,
        tracked_without s before after (to_mark id fails) other e apart (h other busy),
      )
    ]

    mark-IsTracked :
        (s : Server Db Configs) (before after : List (Task Configs)) (id : String) (fails : Bool)
        → s.tasks ≡ before ++ to_mark id fails ∷ after
        → IsTracked s
        → IsTracked (run_task q f s (to_mark id fails) (before ++ after))
    unfolding run_task mark_system_install_finished finished_status
    mark-IsTracked s before after id fails e h = elim (Queried-cases (q.system_of s.db id)) [
      | inr (error, missing) ↦
          rw (missing, mark_system_install_finished) (logged-IsTracked s before after id fails e h)
      | inl (row, known) ↦
          let final = finished_status fails row.status in
          elim (Option-cases (q.update_system_status s.db row.pk final)) [
            | inl fault ↦
                rw (known, mark_system_install_finished)
                  (rw fault (logged-IsTracked s before after id fails e h))
            | inr (db, marked) ↦
                let sets = laws.updates s.db db id row final known marked in
                rw (known, mark_system_install_finished)
                  (rw marked (λ other busy.
                    elim (busy_after s.db db id (some final) other sets busy) [
                      | inr (_, never) ↦ absurd (final_not_busy fails row.status never)
                      | inl was ↦ elim (Bool-cases (id == other)) [
                        | inl same ↦
                            let now : status_of q f db other ≡ some final =
                              sets other ∙ rw same refl in
                            absurd (final_not_busy fails row.status (rw now at busy))
                        | inr apart ↦
                            tracked_without s before after (to_mark id fails) other e apart
                              (h other was)
                      ]
                    ]))
          ]
    ]

    task-IsTracked :
        (s : Server Db Configs) (before after : List (Task Configs)) (task : Task Configs)
        → s.tasks ≡ before ++ task ∷ after
        → IsTracked s
        → IsTracked (run_task q f s task (before ++ after))
    unfolding run_task mark_system_install_finished finished_status
    task-IsTracked s before after (to_perform id config) e h other busy =
        let was : busy_in (status_of q f s.db other) ≡ true =
          sym (ap busy_in (perform_install-SameStatuses q f laws s.db id config other)) ∙ busy in
        elim (Bool-cases (id == other)) [
          | inl same ↦ ground (arith, same)
          | inr apart ↦ ground (
            arith,
            apart,
            tracked_without s before after (to_perform id config) other e apart (h other was),
          )
        ]
    task-IsTracked s before after (to_mark id fails) e h other busy =
        mark-IsTracked s before after id fails e h other busy

    always-IsTracked :
        {first s : Server Db Configs} (start : IsTracked first) (reached : Reach q f first s)
        → IsTracked s
    always-IsTracked start no_step = start
    always-IsTracked start (then_step reached (install_requested {s} id config only)) =
        install-IsTracked s id config only (always-IsTracked start reached)
    always-IsTracked start (then_step reached (delete_requested {s} id)) =
        delete-IsTracked s id (always-IsTracked start reached)
    always-IsTracked start (then_step reached (task_run {s} before task after e)) =
        task-IsTracked s before after task e (always-IsTracked start reached)

    -- Whatever requests come and in whatever order the parts of the goroutines run: when at the start
    -- each system that is being installed or updated has a goroutine or a logged failure to mark its
    -- end, and each query that succeeds writes the statuses that it names and no others, then such a
    -- system always has a goroutine that has yet to mark its end, or a failure to mark it was logged.
    pub busy_has_task :
        {first s : Server Db Configs} (start : IsTracked first) (reached : Reach q f first s)
        (id : String) (busy : busy_in (status_of q f s.db id) ≡ true)
        → (contains (task_systems s.tasks) id || contains s.failed_marks id) ≡ true
    busy_has_task start reached = always-IsTracked start reached
