-- ===== src/Admin/Statuses.antt =====
-- The statuses of systems under the queries and the installs of internal/admin/admin.go.
use Prim.Native.String.{String}
use transiter.Base.{
  Bool, Bool-cases, List, Option, Option-cases, [], ap, arith, false, if◌then◌else◌, inl, inr,
  nat_keys, none, refl, some, string_keys, sym, true, ℕ, ◌==◌, ◌∙◌, ◌∷◌, ◌≡◌, ◌⊎◌,
}
use transiter.Admin.Feeds.{
  FeedQueries, NewFeed, SystemConfig, delete_feeds, perform_install, update_required,
  upsert_system_metadata, write_feeds,
}
use transiter.Admin.Systems.{SystemQueries, SystemRow, SystemStatus, installing, updating}
use transiter.Admin.Tasks.{Task, to_mark, to_perform}
use transiter.Base.Int.{int_keys}
use transiter.Base.Maps.{Map, delete, lookup}
use transiter.Public.Results.{Queried, QueryError, answer, query_error}
use transiter.ServiceMaps.Configs.{written}

abbrev pub is_busy : SystemStatus → Bool
is_busy installing = true
is_busy updating = true
is_busy _ = false

abbrev pub task_system : {Configs : Type 0} → Task Configs → String
task_system (to_perform id config) = id
task_system (to_mark id fails) = id

pub Queried-cases {ℓ} :
    {A : Type ℓ} (r : Queried A)
    → ((a : A) × (r ≡ answer a)) ⊎ ((e : QueryError) × (r ≡ query_error e))
Queried-cases (answer a) = inl (a, refl)
Queried-cases (query_error e) = inr (e, refl)

module _ {Db Configs : Type 0} (q : SystemQueries Db) (f : FeedQueries Db Configs) where
  abbrev pub status_in : Queried SystemRow → Option SystemStatus
  status_in (answer row) = some row.status
  status_in (query_error e) = none

  abbrev pub status_of : Db → String → Option SystemStatus
  status_of db id = status_in (q.system_of db id)

  abbrev pub SameStatuses : Db → Db → Type 0
  SameStatuses before after = (id : String) → status_of after id ≡ status_of before id

  abbrev pub SetsStatus : Db → Db → String → Option SystemStatus → Type 0
  SetsStatus before after id status =
      (other : String)
      → status_of after other ≡ (if id == other then status else status_of before other)

  -- What the code relies on of the queries: one that succeeds writes the status of
  -- the one system that it names, and the others leave the statuses.
  pub record StatusLaws : Type 0 where
    pub inserts :
        (db after : Db) (id name : String) (status : SystemStatus)
        → q.insert_system db id name status ≡ some after
        → SetsStatus db after id (some status)
    pub updates :
        (db after : Db) (id : String) (row : SystemRow) (status : SystemStatus)
        → q.system_of db id ≡ answer row
        → q.update_system_status db row.pk status ≡ some after
        → SetsStatus db after id (some status)
    pub deletes :
        (db after : Db) (id : String) (row : SystemRow)
        → q.system_of db id ≡ answer row
        → q.delete_system db row.pk ≡ some after
        → SetsStatus db after id none
    pub keeps_name :
        (db after : Db) (pk : ℕ) (name : String)
        → f.update_system_name db pk name ≡ some after
        → SameStatuses db after
    pub keeps_maps :
        (db after : Db) (pk : ℕ) (configs : Configs)
        → f.update_service_maps db pk configs ≡ some after
        → SameStatuses db after
    pub keeps_update_feed :
        (db after : Db) (pk : ℕ) (json : String)
        → f.update_feed db pk json ≡ some after
        → SameStatuses db after
    pub keeps_insert_feed :
        (db : Db) (id : String) (pk : ℕ) (json : String)
        → SameStatuses db (f.insert_feed db id pk json)
    pub keeps_delete_feed : (db : Db) (pk : ℕ) → SameStatuses db (f.delete_feed db pk)
    pub keeps_update_now :
        (db : Db) (system_id feed_id : String)
        → SameStatuses db (f.update_now db system_id feed_id).1

  module _ (laws : StatusLaws) where
    write_feeds-SameStatuses :
        (pk : ℕ) (feeds : List NewFeed) (old left : Map String ℕ) (db after : Db)
        → write_feeds f pk feeds old db ≡ some (left, after)
        → SameStatuses db after
    unfolding write_feeds
    write_feeds-SameStatuses pk [] old left db after e id =
        let same : db ≡ after = ground (arith, e) in ap (λ d. status_of d id) (sym same)
    write_feeds-SameStatuses pk (n ∷ feeds) old left db after e id = elim (Option-cases n.json) [
      | inl nothing ↦ absurd (cc (rw (nothing, write_feeds) at e))
      | inr (json, written) ↦ elim (Option-cases (lookup n.id old)) [
        | inl new ↦
            write_feeds-SameStatuses pk feeds old left (f.insert_feed db n.id pk json) after
              (rw (written, new, write_feeds) at e) id
            ∙ laws.keeps_insert_feed db n.id pk json id
        | inr (feed_pk, known) ↦ elim (Option-cases (f.update_feed db feed_pk json)) [
          | inl fails ↦ absurd (cc (rw (written, known, fails, write_feeds) at e))
          | inr (changed, done_now) ↦
              write_feeds-SameStatuses pk feeds (delete n.id old) left changed after
                (rw (written, known, done_now, write_feeds) at e) id
              ∙ laws.keeps_update_feed db changed feed_pk json done_now id
        ]
      ]
    ]

    delete_feeds-SameStatuses :
        (left : Map String ℕ) (db : Db) → SameStatuses db (delete_feeds f left db)
    unfolding delete_feeds
    delete_feeds-SameStatuses [] db id = refl
    delete_feeds-SameStatuses ((feed_id, pk) ∷ left) db id =
        delete_feeds-SameStatuses left (f.delete_feed db pk) id ∙ laws.keeps_delete_feed db pk id

    update_required-SameStatuses :
        (system_id : String) (feeds : List NewFeed) (db : Db)
        → SameStatuses db (update_required f system_id feeds db).1
    unfolding update_required
    update_required-SameStatuses system_id [] db id = refl
    update_required-SameStatuses system_id (n ∷ feeds) db id =
        elim (Bool-cases n.required_for_install) [
          | inr skipped_feed ↦ rw skipped_feed (update_required-SameStatuses system_id feeds db id)
          | inl required ↦ elim (Bool-cases (f.update_now db system_id n.id).0) [
            | inl fails ↦
                rw required
                  (rw (fails, update_required) (laws.keeps_update_now db system_id n.id id))
            | inr works ↦ rw required (
                rw (works, update_required)
                  (update_required-SameStatuses system_id feeds (f.update_now db system_id n.id).1
                      id
                    ∙ laws.keeps_update_now db system_id n.id id))
          ]
        ]

    upsert_system_metadata-SameStatuses :
        (db after : Db) (id : String) (config : SystemConfig Configs)
        → upsert_system_metadata q f db id config ≡ some after
        → SameStatuses db after
    unfolding upsert_system_metadata
    upsert_system_metadata-SameStatuses db after id config e other =
        elim (Queried-cases (q.system_of db id)) [
          | inr (error, missing) ↦ absurd (cc (rw (missing, upsert_system_metadata) at e))
          | inl (row, known) ↦ elim (Option-cases (f.update_system_name db row.pk config.name)) [
            | inl fails ↦ absurd (cc (rw (known, fails, upsert_system_metadata) at e))
            | inr (named, e1) ↦
                elim (Option-cases (f.update_service_maps named row.pk config.service_maps)) [
                  | inl fails ↦ absurd (cc (rw (known, e1, fails, upsert_system_metadata) at e))
                  | inr (mapped, e2) ↦ elim (Option-cases (f.list_feeds mapped row.pk)) [
                    | inl fails ↦
                        absurd (cc (rw (known, e1, e2, fails, upsert_system_metadata) at e))
                    | inr (old, e3) ↦
                        elim (Option-cases (write_feeds f row.pk config.feeds old mapped)) [
                          | inl fails ↦
                              absurd
                                (cc (rw (known, e1, e2, e3, fails, upsert_system_metadata) at e))
                          | inr ((left, feeds_written), e4) ↦
                              let last : delete_feeds f left feeds_written ≡ after =
                                ground (
                                  arith,
                                  rw (known, e1, e2, e3, e4, upsert_system_metadata) at e,
                                ) in
                              ap (λ d. status_of d other) (sym last)
                              ∙ delete_feeds-SameStatuses left feeds_written other
                              ∙ write_feeds-SameStatuses row.pk config.feeds old left mapped
                                  feeds_written e4 other
                              ∙ laws.keeps_maps named mapped row.pk config.service_maps e2 other
                              ∙ laws.keeps_name db named row.pk config.name e1 other
                        ]
                  ]
                ]
          ]
        ]

    -- An install does not change the status of any system before its end is marked.
    pub perform_install-SameStatuses :
        (db : Db) (id : String) (config : SystemConfig Configs)
        → SameStatuses db (perform_install q f db id config).1
    unfolding perform_install
    perform_install-SameStatuses db id config other =
        elim (Option-cases (upsert_system_metadata q f db id config)) [
          | inl fails ↦ rw (fails, perform_install) refl
          | inr (after, e) ↦
              rw (e, perform_install)
                (update_required-SameStatuses id config.feeds after other
                  ∙ upsert_system_metadata-SameStatuses db after id config e other)
        ]
