-- ===== src/NyctSubway/Tests.antt =====
-- A file with one station, written to a database that is the list of the rules.
use Prim.{tt}
use Prim.Native.String.{String}
use transiter.Base.{
  Bool-cases, List, Memᴰ, Option, [], ap, arith, inl, inr, nat_keys, none, refl, some, string_keys,
  sym, ℕ, ◌++◌, ◌==◌, ◌∷◌, ◌≡◌,
}
use transiter.Base.Int.{int_keys}
use transiter.Base.Maps.{insert, lookup}
use transiter.Database.Wrappers.{map_id_to_pk_in_system, pks_of_rows}
use transiter.NyctSubway.{NyctSubwayStopCsvData, TextLib}
use transiter.NyctSubway.CustomRules.{custom, custom_rules, custom_stops}
use transiter.NyctSubway.Matching.{match-update-custom_stops}
use transiter.NyctSubway.Parse.{
  Parsed, cell, clean_headsign, direction_rule, parse_csv, parse_rows, parsed, read_header,
  read_headers, replace_all, row_ada, row_rules,
}
use transiter.NyctSubway.Priorities.{Increasing, IsOrdered-rules_of, RuleRow, rules_of}
use transiter.NyctSubway.Rules.{RuleLaws, some_injective}
use transiter.NyctSubway.Update.{NyctQueries, rule_stop_ids, update_nyct_subway}
use transiter.Realtime.Headsigns.{group_rules, match_headsign}
use transiter.Update.Config.{FeedConfig}

abbrev ascii : TextLib
ascii = record { to_lower = λ s. s; trim_space = λ s. s }

abbrev records : List (List String)
records =
    ("gtfs_stop_id" ∷ "north_direction_label" ∷ "south_direction_label" ∷ "ada" ∷ "ada_northbound"
      ∷ "ada_southbound" ∷ [])
    ∷ ("A42" ∷ "Manhattan" ∷ "" ∷ "1" ∷ "1" ∷ "0" ∷ [])
    ∷ ("101" ∷ "" ∷ "Bronx & Uptown" ∷ "0" ∷ "0" ∷ "0" ∷ [])
    ∷ []

abbrev stop_rows : List (String × ℕ)
stop_rows = ("A42N", 7) ∷ ("101S", 8) ∷ []

abbrev rule_list : NyctQueries (List RuleRow)
rule_list = record {
  delete_stop_headsign_rules = λ db feed_pk. some [];
  stop_ids_to_pks = λ db system_pk filter_by_id ids. some stop_rows;
  insert_stop_headsign_rule = λ db p. some (
      db
      ++ (p.priority, record { stop_pk = p.stop_pk; track = p.track; headsign = p.headsign }) ∷ []);
  delete_wheelchair_boarding = λ db system_pk. some db;
  update_wheelchair_boarding = λ db pk boarding. some db;
}

abbrev pk_of : String → Option ℕ
pk_of id = lookup id (pks_of_rows stop_rows [])

rule_list-RuleLaws : RuleLaws rule_list 1 2 (λ db. db) pk_of
rule_list-RuleLaws = record {
  deletes = λ db after e. ground (arith, e);
  inserts = λ db after p e. sym (some_injective e);
  keeps_cleared = λ db after pk e. ground (arith, e);
  keeps_boarding = λ db after pk boarding e. ground (arith, e);
  reads = λ db ids listed id e inside.
      ap (λ rows. lookup id (pks_of_rows rows [])) (sym (some_injective e));
}

abbrev data_of : Parsed NyctSubwayStopCsvData → NyctSubwayStopCsvData
data_of (parsed csv) = csv
data_of _ = record { stop_headsign_rules = []; stop_accessibility_data = [] }

abbrev rows_after : Option (List RuleRow) → List RuleRow
rows_after none = []
rows_after (some db) = db

abbrev csv : NyctSubwayStopCsvData
csv = data_of (parse_csv ascii records)

abbrev no_config : Option (FeedConfig ℕ)
no_config = none

abbrev table : List RuleRow
table = rows_after (update_nyct_subway rule_list no_config 1 2 csv [])

alone_with_7 : (id : String) → pk_of id ≡ some 7 → id ≡ "A42N"
unfolding pks_of_rows lookup insert
alone_with_7 id e = elim (Bool-cases ("A42N" == id)) [
  | inl same ↦ sym ((string_keys.same_iff "A42N" id).0 same)
  | inr apart ↦ absurd (ground (arith, apart, e))
]

table-Increasing : Increasing 0 table
unfolding parse_csv update_nyct_subway custom_rules custom_stops lookup insert parse_rows row_rules
    row_ada read_headers read_header replace_all cell direction_rule clean_headsign rule_stop_ids
    map_id_to_pk_in_system pks_of_rows
table-Increasing = (0, refl, omega arith, (1, refl, omega arith, (18, refl, omega arith, tt)))

match-update-custom_stops_example :
    match_headsign (group_rules [] (rules_of table)) 7 (some "E1") ≡ some "Manhattan"
unfolding parse_csv update_nyct_subway custom_rules custom_stops lookup insert parse_rows row_rules
    row_ada read_headers read_header replace_all cell direction_rule clean_headsign rule_stop_ids
    map_id_to_pk_in_system pks_of_rows
match-update-custom_stops_example =
    match-update-custom_stops rule_list rule_list-RuleLaws ascii records csv refl no_config [] table
      refl (custom "A42N" "E2" "Court Sq, Queens" "Manhattan") (Memᴰ.head refl) 7 refl alone_with_7
      (some "E1") (omega arith) (7 ∷ 8 ∷ []) refl (rules_of table)
      (IsOrdered-rules_of 0 table table-Increasing)
