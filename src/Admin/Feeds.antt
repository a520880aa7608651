-- ===== src/Admin/Feeds.antt =====
-- upsertSystemMetadata and performInstall of internal/admin/admin.go. The errors of the queries
-- InsertFeed and DeleteFeed are not read there.
use Prim.Native.String.{String}
use transiter.Base.{Bool, List, Option, [], false, nat_keys, none, some, string_keys, true, ℕ, ◌∷◌}
use transiter.Admin.Systems.{SystemQueries}
use transiter.Base.Int.{int_keys}
use transiter.Base.Maps.{Map, delete, lookup}
use transiter.Public.Results.{answer, query_error}
use transiter.ServiceMaps.Configs.{written}

-- api.FeedConfig, with the JSON that protojson writes for it; none if it fails.
pub record NewFeed : Type 0 where
  pub id : String
  pub json : Option String
  -- After NormalizeFeedConfig.
  pub required_for_install : Bool

pub record SystemConfig (ServiceMapConfigs : Type 0) : Type 0 where
  pub name : String
  pub feeds : List NewFeed
  pub service_maps : ServiceMapConfigs

-- What is called for the metadata of a system and for its feeds.
pub record FeedQueries (Db ServiceMapConfigs : Type 0) : Type 0 where
  pub update_system_name : Db → ℕ → String → Option Db
  -- servicemaps.UpdateConfig
  pub update_service_maps : Db → ℕ → ServiceMapConfigs → Option Db
  -- The IDs and primary keys of the feeds of a system.
  pub list_feeds : Db → ℕ → Option (Map String ℕ)
  pub update_feed : Db → ℕ → String → Option Db
  pub insert_feed : Db → String → ℕ → String → Db
  pub delete_feed : Db → ℕ → Db
  -- update.Update: whether it fails, and the database that it leaves.
  pub update_now : Db → String → String → Bool × Db

module _ {Db Configs : Type 0} (f : FeedQueries Db Configs) where
  -- The loop over the new feeds: the feeds that are left to be deleted and the database.
  unfoldable pub write_feeds : ℕ → List NewFeed → Map String ℕ → Db → Option (Map String ℕ × Db)
  write_feeds system_pk [] old db = some (old, db)
  write_feeds system_pk (n ∷ feeds) old db = elim n.json [
    | none ↦ none
    | some json ↦ elim (lookup n.id old) [
      | some pk ↦ elim (f.update_feed db pk json) [
        | none ↦ none
        | some changed ↦ write_feeds system_pk feeds (delete n.id old) changed
      ]
      | none ↦ write_feeds system_pk feeds old (f.insert_feed db n.id system_pk json)
    ]
  ]

  unfoldable pub delete_feeds : Map String ℕ → Db → Db
  delete_feeds [] db = db
  delete_feeds ((id, pk) ∷ old) db = delete_feeds old (f.delete_feed db pk)

  -- The loop over the feeds that are required: whether one fails, and the database.
  unfoldable pub update_required : String → List NewFeed → Db → Bool × Db
  update_required system_id [] db = (false, db)
  update_required system_id (n ∷ feeds) db = elim n.required_for_install [
    | false ↦ update_required system_id feeds db
    | true ↦ elim (f.update_now db system_id n.id).0 [
      | true ↦ (true, (f.update_now db system_id n.id).1)
      | false ↦ update_required system_id feeds (f.update_now db system_id n.id).1
    ]
  ]

module _ {Db Configs : Type 0} (q : SystemQueries Db) (f : FeedQueries Db Configs) where
  -- upsertSystemMetadata, as a transaction
  unfoldable pub upsert_system_metadata : Db → String → SystemConfig Configs → Option Db
  unfolding write_feeds delete_feeds
  upsert_system_metadata db id config = elim (q.system_of db id) [
    | query_error e ↦ none
    | answer system ↦ elim (f.update_system_name db system.pk config.name) [
      | none ↦ none
      | some named ↦ elim (f.update_service_maps named system.pk config.service_maps) [
        | none ↦ none
        | some mapped ↦ elim (f.list_feeds mapped system.pk) [
          | none ↦ none
          | some old ↦ elim (write_feeds f system.pk config.feeds old mapped) [
            | none ↦ none
            | some (left, written) ↦ some (delete_feeds f left written)
          ]
        ]
      ]
    ]
  ]

  -- performInstall: whether it fails, and the database.
  unfoldable pub perform_install : Db → String → SystemConfig Configs → Bool × Db
  unfolding upsert_system_metadata update_required
  perform_install db system_id config = elim (upsert_system_metadata db system_id config) [
    | none ↦ (true, db)
    | some written ↦ update_required f system_id config.feeds written
  ]
