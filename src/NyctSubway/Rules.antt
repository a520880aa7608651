-- ===== src/NyctSubway/Rules.antt =====
-- The table of headsign rules after Update of internal/update/nyctsubwaycsv/nyctsubwaycsv.go.
use Prim.Native.String.{String}
use mathlib.Core.List.{append-nil, append_assoc}
use transiter.Base.{
  Bool, Bool-cases, List, Memᴰ, Option, Option-cases, [], ap, arith, contains, if◌then◌else◌, inl,
  inr, map, nat_keys, some, string_keys, suc, sym, true, ℕ, ◌++◌, ◌∙◌, ◌∷◌, ◌≡◌,
}
use transiter.Base.Int.{int32_of_uint32, int_keys}
use transiter.Base.Maps.{Map, lookup}
use transiter.Database.Wrappers.{map_id_to_pk_in_system, pks_of_rows}
use transiter.NyctSubway.{NyctSubwayStopCsvData, StopAccessibilityInfo, StopHeadsignRule}
use transiter.NyctSubway.Headsigns.{contains-rule_stop_ids, contains-stop_ids}
use transiter.NyctSubway.Priorities.{RuleRow, rows_from}
use transiter.NyctSubway.Update.{
  InsertStopHeadsignRule, NyctQueries, insert_rules, rule_stop_ids, update_accessibility,
  update_boardings, update_nyct_subway, wheelchair_accessible,
}
use transiter.Public.Results.{found}
use transiter.Realtime.Alerts.Partition.{ids}
use transiter.Scheduler.Systems.ResetAllLaws.{answered}
use transiter.Update.Config.{FeedConfig, use_accessibility_info_from_feed}

pub some_injective {ℓ} : {A : Type ℓ} {a b : A} → some a ≡ some b → a ≡ b
some_injective e = cc e

module _ {Db : Type 0} (q : NyctQueries Db) where
  -- What the update relies on of the queries, where no other feed has rules of headsigns: `rows_in`
  -- is the table of the rules with their priorities, and `pk_of` is the table of stops.
  pub record RuleLaws (system_pk feed_pk : ℕ) (rows_in : Db → List RuleRow)
      (pk_of : String → Option ℕ) : Type 0 where
    pub deletes :
        (db after : Db) → q.delete_stop_headsign_rules db feed_pk ≡ some after → rows_in after ≡ []
    pub inserts :
        (db after : Db) (p : InsertStopHeadsignRule)
        → q.insert_stop_headsign_rule db p ≡ some after
        → rows_in after
          ≡ rows_in db
            ++ (p.priority, record { stop_pk = p.stop_pk; track = p.track; headsign = p.headsign })
              ∷ []
    pub keeps_cleared :
        (db after : Db) (pk : ℕ)
        → q.delete_wheelchair_boarding db pk ≡ some after
        → rows_in after ≡ rows_in db
    pub keeps_boarding :
        (db after : Db) (pk : ℕ) (boarding : Option Bool)
        → q.update_wheelchair_boarding db pk boarding ≡ some after
        → rows_in after ≡ rows_in db
    pub reads :
        (db : Db) (ids : List String) (listed : List (String × ℕ)) (id : String)
        → q.stop_ids_to_pks db system_pk true ids ≡ some listed
        → contains ids id ≡ true
        → lookup id (pks_of_rows listed []) ≡ pk_of id

  module _ {system_pk feed_pk : ℕ} {rows_in : Db → List RuleRow} {pk_of : String → Option ℕ}
      (laws : RuleLaws system_pk feed_pk rows_in pk_of) where
    insert_rules-rows :
        (pks : Map String ℕ) (i : ℕ) (rules : List StopHeadsignRule) (db after : Db)
        → insert_rules q feed_pk pks i rules db ≡ some after
        → rows_in after ≡ rows_in db ++ rows_from pks i rules
    unfolding insert_rules
    insert_rules-rows pks i [] db after e =
        let same : db ≡ after = ground (arith, e) in
        ap rows_in (sym same) ∙ sym (append-nil (rows_in db))
    insert_rules-rows pks i (r ∷ rules) db after e = elim (Option-cases (lookup r.stop_id pks)) [
      | inl absent ↦
          rw (absent, rows_from)
            (insert_rules-rows pks (suc i) rules db after (rw (absent, insert_rules) at e))
      | inr (pk, found) ↦
          let params : InsertStopHeadsignRule = record {
            feed_pk = feed_pk;
            priority = int32_of_uint32 i;
            stop_pk = pk;
            track = r.track;
            headsign = r.headsign;
          } in
          elim (Option-cases (q.insert_stop_headsign_rule db params)) [
            | inl fails ↦ absurd (cc (rw (found, fails, insert_rules) at e))
            | inr (grown, e1) ↦
                rw (found, rows_from)
                  (insert_rules-rows pks (suc i) rules grown after
                      (rw (found, e1, insert_rules) at e)
                    ∙ ap (λ rs. rs ++ rows_from pks (suc i) rules) (laws.inserts db grown params e1)
                    ∙ append_assoc (rows_in db) _ (rows_from pks (suc i) rules))
          ]
    ]

    update_boardings-rules :
        (pks : Map String ℕ) (infos : List StopAccessibilityInfo) (db after : Db)
        → update_boardings q pks infos db ≡ some after
        → rows_in after ≡ rows_in db
    unfolding update_boardings
    update_boardings-rules pks [] db after e =
        let same : db ≡ after = ground (arith, e) in ap rows_in (sym same)
    update_boardings-rules pks (a ∷ infos) db after e = elim (Option-cases (lookup a.stop_id pks)) [
      | inl absent ↦ update_boardings-rules pks infos db after (rw (absent, update_boardings) at e)
      | inr (pk, found) ↦
          let boarding = wheelchair_accessible a.wheelchair_boarding in
          elim (Option-cases (q.update_wheelchair_boarding db pk boarding)) [
            | inl fails ↦ absurd (cc (rw (found, fails, update_boardings) at e))
            | inr (changed, e1) ↦
                update_boardings-rules pks infos changed after
                  (rw (found, e1, update_boardings) at e)
                ∙ laws.keeps_boarding db changed pk boarding e1
          ]
    ]

    update_accessibility-rules :
        (infos : List StopAccessibilityInfo) (db after : Db)
        → update_accessibility q system_pk infos db ≡ some after
        → rows_in after ≡ rows_in db
    unfolding update_accessibility
    update_accessibility-rules infos db after e =
        elim (Option-cases (q.delete_wheelchair_boarding db system_pk)) [
          | inl fails ↦ absurd (cc (rw (fails, update_accessibility) at e))
          | inr (cleared, e1) ↦
              elim (Option-cases (
                map_id_to_pk_in_system (q.stop_ids_to_pks cleared system_pk)
                  (some (map (λ a. a.stop_id) infos)))) [
                    | inl fails ↦ absurd (cc (rw (e1, fails, update_accessibility) at e))
                    | inr (pks, e2) ↦
                        update_boardings-rules pks infos cleared after
                          (rw (e1, e2, update_accessibility) at e)
                        ∙ laws.keeps_cleared db cleared system_pk e1
                  ]
        ]

    map_id_to_pk-reads :
        (db : Db) (ids : List String) (pks : Map String ℕ) (id : String)
        → map_id_to_pk_in_system (q.stop_ids_to_pks db system_pk) (some ids) ≡ some pks
        → contains ids id ≡ true
        → lookup id pks ≡ pk_of id
    unfolding map_id_to_pk_in_system
    map_id_to_pk-reads db [] pks id e inside = absurd (cc inside)
    map_id_to_pk-reads db (first ∷ ids) pks id e inside =
        elim (Option-cases (q.stop_ids_to_pks db system_pk true (first ∷ ids))) [
          | inl fails ↦ absurd (cc (rw (fails, map_id_to_pk_in_system) at e))
          | inr (listed, answered) ↦
              let same : pks_of_rows listed [] ≡ pks =
                some_injective (rw (answered, map_id_to_pk_in_system) at e) in
              ap (lookup id) (sym same) ∙ laws.reads db (first ∷ ids) listed id answered inside
        ]

    kept :
        {F : Type 0} (config : Option (FeedConfig F)) (csv : NyctSubwayStopCsvData) (db after : Db)
        → (if use_accessibility_info_from_feed config
            then update_accessibility q system_pk csv.stop_accessibility_data db
            else some db)
          ≡ some after
        → rows_in after ≡ rows_in db
    kept config csv db after e = elim (Bool-cases (use_accessibility_info_from_feed config)) [
      | inl used ↦ update_accessibility-rules csv.stop_accessibility_data db after (rw used at e)
      | inr unused ↦ ap rows_in (sym (some_injective (rw unused at e)))
    ]

    -- The rules of the database after an update that succeeds.
    pub update_nyct_subway-rows :
        {F : Type 0} (config : Option (FeedConfig F)) (csv : NyctSubwayStopCsvData) (db after : Db)
        → update_nyct_subway q config system_pk feed_pk csv db ≡ some after
        → (pks : Map String ℕ) × (rows_in after ≡ rows_from pks 0 csv.stop_headsign_rules)
          × ((r : StopHeadsignRule)
              → Memᴰ r csv.stop_headsign_rules
              → lookup r.stop_id pks ≡ pk_of r.stop_id)
    unfolding update_nyct_subway
    update_nyct_subway-rows config csv db after e =
        let rules = csv.stop_headsign_rules in
        elim (Option-cases (q.delete_stop_headsign_rules db feed_pk)) [
          | inl fails ↦ absurd (cc (rw (fails, update_nyct_subway) at e))
          | inr (cleared, e1) ↦
              elim (Option-cases (
                map_id_to_pk_in_system (q.stop_ids_to_pks cleared system_pk)
                  (some (rule_stop_ids rules [])))) [
                    | inl fails ↦ absurd (cc (rw (e1, fails, update_nyct_subway) at e))
                    | inr (pks, e2) ↦
                        elim (Option-cases (insert_rules q feed_pk pks 0 rules cleared)) [
                          | inl fails ↦ absurd (cc (rw (e1, e2, fails, update_nyct_subway) at e))
                          | inr (with_rules, e3) ↦
                              let left = rw (e1, e2, e3, update_nyct_subway) at e in
                              (
                                pks,
                                kept config csv with_rules after left
                                    ∙ insert_rules-rows pks 0 rules cleared with_rules e3
                                    ∙ ap (λ rs. rs ++ rows_from pks 0 rules)
                                        (laws.deletes db cleared e1),
                                λ r m.
                                    map_id_to_pk-reads cleared (rule_stop_ids rules []) pks
                                      r.stop_id e2
                                      (ground (
                                        arith,
                                        contains-rule_stop_ids rules [] r.stop_id,
                                        contains-stop_ids rules r m,
                                      )),
                              )
                        ]
                  ]
        ]
