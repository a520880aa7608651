-- ===== src/Admin/Systems.antt =====
-- The status of a system: upsertSystemEntry, markSystemInstallFinished and DeleteSystem of
-- internal/admin/admin.go, over a database of any type.
use Prim.Native.String.{String}
use transiter.Base.{
  Bool, Option, false, if◌then◌else◌, nat_keys, none, some, string_keys, true, ℕ, ◌&&◌,
}
use transiter.Base.Int.{int_keys}
use transiter.Public.Results.{Queried, answer, no_rows, query_error, query_failure}

-- internal/db/constants/constants.go
pub data SystemStatus : Type 0 where
  installing : SystemStatus
  active : SystemStatus
  install_failed : SystemStatus
  update_failed : SystemStatus
  updating : SystemStatus

-- db.System
pub record SystemRow : Type 0 where
  pub pk : ℕ
  pub name : String
  pub status : SystemStatus

-- The queries on systems. One that fails gives nothing, and the transaction that it is part of
-- leaves the database as it was.
pub record SystemQueries (Db : Type 0) : Type 0 where
  -- None where there is no such system; an error of its own otherwise.
  pub system_of : Db → String → Queried SystemRow
  pub insert_system : Db → String → String → SystemStatus → Option Db
  pub update_system_status : Db → ℕ → SystemStatus → Option Db
  pub delete_system : Db → ℕ → Option Db

-- What a transaction gives, and the database that it leaves.
pub data Committed {ℓ} (Db : Type 0) (A : Type ℓ) : Type ℓ where
  committed : A → Db → Committed Db A
  rolled_back : Committed Db A

abbrev pub is_active : SystemStatus → Bool
is_active active = true
is_active _ = false

-- The status after an install or update that failed or not.
unfoldable pub finished_status : Bool → SystemStatus → SystemStatus
finished_status true installing = install_failed
finished_status true _ = update_failed
finished_status false _ = active

abbrev pub commit_with {ℓ} : {Db : Type 0} {A : Type ℓ} → A → Option Db → Committed Db A
commit_with a none = rolled_back
commit_with a (some db) = committed a db

module _ {Db : Type 0} (q : SystemQueries Db) where
  -- upsertSystemEntry: whether the install goes on.
  unfoldable pub upsert_system_entry : Db → String → String → Bool → Committed Db Bool
  upsert_system_entry db id name install_only = elim (q.system_of db id) [
    | query_error no_rows ↦ commit_with true (q.insert_system db id name installing)
    | query_error (query_failure e) ↦ rolled_back
    | answer system ↦
        if install_only && is_active system.status
        then committed false db
        else commit_with true (q.update_system_status db system.pk updating)
  ]

  -- markSystemInstallFinished
  unfoldable pub mark_system_install_finished : Db → String → Bool → Option Db
  unfolding finished_status
  mark_system_install_finished db id failed_install = elim (q.system_of db id) [
    | query_error e ↦ none
    | answer system ↦
        q.update_system_status db system.pk (finished_status failed_install system.status)
  ]

  -- The transaction of DeleteSystem.
  unfoldable pub delete_system_entry : Db → String → Option Db
  delete_system_entry db id = elim (q.system_of db id) [
    | query_error e ↦ none
    | answer system ↦ q.delete_system db system.pk
  ]
