-- ===== src/NyctSubway/Update.antt =====
-- Update of internal/update/nyctsubwaycsv/nyctsubwaycsv.go, on a database of any type.
use Prim.Native.String.{String}
use transiter.Base.{
  Bool, List, Option, [], contains, false, if◌then◌else◌, map, nat_keys, none, some, string_keys,
  suc, true, ℕ, ◌++◌, ◌∷◌,
}
use transiter.Base.Int.{int32_of_uint32, int_keys, ℤ}
use transiter.Base.Maps.{Map, lookup}
use transiter.Database.Wrappers.{map_id_to_pk_in_system}
use transiter.NyctSubway.{
  NyctSubwayStopCsvData, StopAccessibilityInfo, StopHeadsignRule, WheelchairBoarding, not_possible,
  not_specified, possible,
}
use transiter.Realtime.Alerts.Partition.{ids}
use transiter.Update.Config.{FeedConfig, use_accessibility_info_from_feed}

-- db.InsertStopHeadSignRuleParams
pub record InsertStopHeadsignRule : Type 0 where
  pub feed_pk : ℕ
  pub priority : ℤ
  pub stop_pk : ℕ
  pub track : Option String
  pub headsign : String

-- The queries of the update; one that fails gives nothing.
pub record NyctQueries (Db : Type 0) : Type 0 where
  pub delete_stop_headsign_rules : Db → ℕ → Option Db
  pub stop_ids_to_pks : Db → ℕ → Bool → List String → Option (List (String × ℕ))
  pub insert_stop_headsign_rule : Db → InsertStopHeadsignRule → Option Db
  pub delete_wheelchair_boarding : Db → ℕ → Option Db
  pub update_wheelchair_boarding : Db → ℕ → Option Bool → Option Db

-- The IDs of the stops that have rules, each once.
unfoldable pub rule_stop_ids : List StopHeadsignRule → List String → List String
rule_stop_ids [] ids = ids
rule_stop_ids (r ∷ rules) ids =
    rule_stop_ids rules (if contains ids r.stop_id then ids else ids ++ r.stop_id ∷ [])

-- convert.WheelchairAccessible
unfoldable pub wheelchair_accessible : WheelchairBoarding → Option Bool
wheelchair_accessible possible = some true
wheelchair_accessible not_possible = some false
wheelchair_accessible not_specified = none

module _ {Db : Type 0} (q : NyctQueries Db) where
  -- The loop over the rules, from a position on; int32 of the position wraps.
  unfoldable pub insert_rules : ℕ → Map String ℕ → ℕ → List StopHeadsignRule → Db → Option Db
  insert_rules feed_pk pks i [] db = some db
  insert_rules feed_pk pks i (r ∷ rules) db = elim (lookup r.stop_id pks) [
    | none ↦ insert_rules feed_pk pks (suc i) rules db
    | some pk ↦
        elim (q.insert_stop_headsign_rule db (record {
          feed_pk = feed_pk;
          priority = int32_of_uint32 i;
          stop_pk = pk;
          track = r.track;
          headsign = r.headsign;
        })) [ none ↦ none | some after ↦ insert_rules feed_pk pks (suc i) rules after ]
  ]

  unfoldable pub update_boardings : Map String ℕ → List StopAccessibilityInfo → Db → Option Db
  unfolding wheelchair_accessible
  update_boardings pks [] db = some db
  update_boardings pks (a ∷ infos) db = elim (lookup a.stop_id pks) [
    | none ↦ update_boardings pks infos db
    | some pk ↦
        elim (q.update_wheelchair_boarding db pk (wheelchair_accessible a.wheelchair_boarding)) [
          | none ↦ none
          | some after ↦ update_boardings pks infos after
        ]
  ]

  -- The part of Update after the rules.
  unfoldable pub update_accessibility : ℕ → List StopAccessibilityInfo → Db → Option Db
  unfolding update_boardings map_id_to_pk_in_system
  update_accessibility system_pk infos db = elim (q.delete_wheelchair_boarding db system_pk) [
    | none ↦ none
    | some cleared ↦
        elim (map_id_to_pk_in_system (q.stop_ids_to_pks cleared system_pk)
          (some (map (λ a. a.stop_id) infos))) [
            | none ↦ none
            | some pks ↦ update_boardings pks infos cleared
          ]
  ]

  unfoldable pub update_nyct_subway :
      {F : Type 0} → Option (FeedConfig F) → ℕ → ℕ → NyctSubwayStopCsvData → Db → Option Db
  unfolding rule_stop_ids insert_rules update_accessibility map_id_to_pk_in_system
      use_accessibility_info_from_feed
  update_nyct_subway config system_pk feed_pk csv db =
      elim (q.delete_stop_headsign_rules db feed_pk) [
        | none ↦ none
        | some cleared ↦
            elim (map_id_to_pk_in_system (q.stop_ids_to_pks cleared system_pk)
              (some (rule_stop_ids csv.stop_headsign_rules []))) [
                | none ↦ none
                | some pks ↦ elim (insert_rules feed_pk pks 0 csv.stop_headsign_rules cleared) [
                  | none ↦ none
                  | some with_rules ↦
                      if use_accessibility_info_from_feed config
                      then update_accessibility system_pk csv.stop_accessibility_data with_rules
                      else some with_rules
                ]
              ]
      ]
