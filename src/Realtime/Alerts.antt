-- ===== src/Realtime/Alerts.antt =====
-- `updateAlerts` of internal/update/realtime/realtime.go: which alerts of a feed are inserted, and
-- which stay.
pub mod Partition
pub mod Mentions
pub mod Inserts
use Prim.Native.String.{String}
use transiter.Base.{
  List, Option, [], contains, if◌then◌else◌, map, nat_keys, none, some, string_keys, ℕ, ◌++◌, ◌==◌,
  ◌∷◌,
}
use transiter.Base.Int.{int_keys}
use transiter.Base.Maps.{Map, insert, keys, lookup}

-- gtfs.Alert with the type of what is not read here, and its hash (`calculateHash`).
pub record Alert (Body : Type 0) : Type 0 where
  pub id : String
  pub body : Body

-- pkAndHash
pub record PkAndHash : Type 0 where
  pub pk : ℕ
  pub hash : String

-- The variables that the loop over the alerts writes.
pub record AlertChanges (Body : Type 0) : Type 0 where
  pub id_to_hash : Map String String
  pub unchanged_alert_pks : List ℕ
  pub updated_alert_pks : List ℕ
  pub alerts_to_insert : List (Alert Body)

module _ {Body : Type 0} (calculate_hash : Alert Body → String) where
  unfoldable pub no_alert_changes : AlertChanges Body
  no_alert_changes = record {
    id_to_hash = [];
    unchanged_alert_pks = [];
    updated_alert_pks = [];
    alerts_to_insert = [];
  }

  abbrev pub insert_alert : Alert Body → AlertChanges Body → AlertChanges Body
  insert_alert alert c = record c { alerts_to_insert = c.alerts_to_insert ++ alert ∷ [] }

  -- An alert that is not a duplicate, by what the database has of it.
  abbrev pub change_alert : Option PkAndHash → Alert Body → AlertChanges Body → AlertChanges Body
  change_alert none alert c = insert_alert alert c
  change_alert (some existing) alert c =
      if calculate_hash alert == existing.hash
      then record c { unchanged_alert_pks = c.unchanged_alert_pks ++ existing.pk ∷ [] }
      else insert_alert alert
          (record c { updated_alert_pks = c.updated_alert_pks ++ existing.pk ∷ [] })

  -- One pass of the loop.
  unfoldable pub sort_alert :
      Map String PkAndHash → Alert Body → AlertChanges Body → AlertChanges Body
  sort_alert id_to_pk_and_hash alert c =
      if contains (keys c.id_to_hash) alert.id
      then c
      else change_alert (lookup alert.id id_to_pk_and_hash) alert
          (record c { id_to_hash = insert alert.id (calculate_hash alert) c.id_to_hash })

  unfoldable pub sort_alerts :
      Map String PkAndHash → List (Alert Body) → AlertChanges Body → AlertChanges Body
  unfolding sort_alert
  sort_alerts id_to_pk_and_hash [] c = c
  sort_alerts id_to_pk_and_hash (alert ∷ alerts) c =
      sort_alerts id_to_pk_and_hash alerts (sort_alert id_to_pk_and_hash alert c)

  -- The queries, none where one fails; `insert_alerts` is the function `insertAlerts`.
  pub record AlertQueries (Database : Type 0) : Type 0 where
    pub list_pks_and_hashes : List String → Database → Option (Map String PkAndHash)
    pub delete_alerts : List ℕ → Database → Option Database
    pub insert_alerts :
        List (Alert Body) → Map String String → Database → Option (List ℕ × Database)
    pub delete_stale_alerts : List ℕ → Database → Option Database

  module _ {Database : Type 0} (q : AlertQueries Database) where
    abbrev pub delete_stale_after : List ℕ → Option (List ℕ × Database) → Option Database
    delete_stale_after unchanged none = none
    delete_stale_after unchanged (some (new, d)) = q.delete_stale_alerts (unchanged ++ new) d

    abbrev pub insert_after : AlertChanges Body → Option Database → Option Database
    insert_after c none = none
    insert_after c (some d) =
        delete_stale_after c.unchanged_alert_pks (q.insert_alerts c.alerts_to_insert c.id_to_hash d)

    abbrev pub update_listed :
        List (Alert Body) → Database → Option (Map String PkAndHash) → Option Database
    update_listed alerts d none = none
    update_listed alerts d (some known) =
        let c = sort_alerts known alerts no_alert_changes in
        insert_after c (q.delete_alerts c.updated_alert_pks d)

    unfoldable pub update_alerts : List (Alert Body) → Database → Option Database
    unfolding sort_alerts no_alert_changes
    update_alerts alerts d =
        update_listed alerts d (q.list_pks_and_hashes (map (λ (a : Alert Body). a.id) alerts) d)
