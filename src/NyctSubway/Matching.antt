-- ===== src/NyctSubway/Matching.antt =====
-- The composition of Parse and Update of internal/update/nyctsubwaycsv/nyctsubwaycsv.go with the
-- matcher of internal/update/realtime/realtime.go.
use Prim.Native.String.{String}
use mathlib.Core.Path.{subst}
use transiter.Base.{
  arith, List, Memᴰ, Option, Option-cases, [], ap, contains, inl, inr, length, map, nat_keys, refl,
  some, string_keys, sym, true, ℕ, ◌++◌, ◌∙◌, ◌∷◌, ◌≡◌, ◌≤◌,
}
use transiter.Base.Int.{int_keys}
use transiter.NyctSubway.{NyctSubwayStopCsvData, StopHeadsignRule, TextLib}
use transiter.NyctSubway.CustomRules.{CustomRule, custom_rules, custom_stops}
use transiter.NyctSubway.Headsigns.{
  custom_headsign, first_fit-rows_of_rules, first_rule, first_rule-expand_rules,
}
use transiter.NyctSubway.Parse.{
  Parsed, Positions, no_columns, parse_csv, parse_error, parse_panics, parse_rows, parsed,
  read_headers, required_columns, row_ada, row_rules,
}
use transiter.NyctSubway.Priorities.{
  Increasing-rows_from, IsOrdered, RuleRow, first_fit-ordered, rows_from, rows_of_stops,
  rules_of-rows_from,
}
use transiter.NyctSubway.Rules.{RuleLaws, update_nyct_subway-rows}
use transiter.NyctSubway.Update.{NyctQueries, update_nyct_subway}
use transiter.Realtime.Headsigns.{first_fit, group_rules, match_headsign, match_headsign_lem}
use transiter.Realtime.Types.{HeadsignRule}
use transiter.Update.Config.{FeedConfig}

parsed_injective {ℓ} : {A : Type ℓ} {a b : A} → parsed a ≡ parsed b → a ≡ b
parsed_injective e = cc e

-- What a parsed file went through.
parsed_rows :
    (lib : TextLib) (later : List (List String)) (r : Parsed Positions)
    {csv : NyctSubwayStopCsvData}
    → elim r [
      | parsed p ↦ parse_rows lib p later
      | parse_error text ↦ parse_error text
      | parse_panics ↦ parse_panics
    ]
      ≡ parsed csv
    → (p : Positions) × (parse_rows lib p later ≡ parsed csv)
parsed_rows lib later (parsed p) e = (p, e)
parsed_rows lib later (parse_error text) e = absurd (cc e)
parsed_rows lib later parse_panics e = absurd (cc e)

-- A parsed file has the custom rules first.
parse_csv-custom_rules :
    (lib : TextLib) (records : List (List String)) {csv : NyctSubwayStopCsvData}
    → parse_csv lib records ≡ parsed csv
    → (rest : List StopHeadsignRule) × (csv.stop_headsign_rules ≡ custom_rules ++ rest)
unfolding parse_csv parse_rows
parse_csv-custom_rules lib [] e = absurd (cc e)
parse_csv-custom_rules lib (headers ∷ later) {csv} e =
    let (p, e0) =
      parsed_rows lib later (required_columns (read_headers lib 0 headers no_columns)) e in
    elim (Option-cases (row_rules lib p (map (λ r. r.stop_id) custom_rules) later)) [
      | inl bad ↦ absurd (cc (rw (bad, parse_rows) at e0))
      | inr (rest, e1) ↦ elim (Option-cases (row_ada lib p later)) [
        | inl bad ↦ absurd (cc (rw (e1, bad, parse_rows) at e0))
        | inr (infos, e2) ↦
            let made : parsed (record {
              stop_headsign_rules = custom_rules ++ rest;
              stop_accessibility_data = infos;
            })
                ≡ parsed csv =
              rw (e1, e2, parse_rows) at e0 in
            (rest, ap (λ d. d.stop_headsign_rules) (sym (parsed_injective made)))
      ]
    ]

module _ {Db : Type 0} (q : NyctQueries Db) {system_pk feed_pk : ℕ} {rows_in : Db → List RuleRow}
    {pk_of : String → Option ℕ} (laws : RuleLaws q system_pk feed_pk rows_in pk_of) where
  -- After a file with at most 2^31 rules is parsed and written, the matcher that is built from any
  -- listing by priority of the rules of some stops gives a custom stop its headsign for the
  -- track: the one of the track where the track is that of the rule or not known, and the default one
  -- otherwise. The stop is among those of the listing and has a primary key, which no other
  -- stop has; no other feed has rules of headsigns.
  pub match-update-custom_stops :
      {F : Type 0} (lib : TextLib) (records : List (List String)) (csv : NyctSubwayStopCsvData)
      (read : parse_csv lib records ≡ parsed csv) (config : Option (FeedConfig F)) (db after : Db)
      (wrote : update_nyct_subway q config system_pk feed_pk csv db ≡ some after) (g : CustomRule)
      (custom_stop : Memᴰ g custom_stops) (pk : ℕ) (known : pk_of g.stop_id ≡ some pk)
      (alone : (id : String) → pk_of id ≡ some pk → id ≡ g.stop_id) (track : Option String)
      (small : length csv.stop_headsign_rules ≤ 2_147_483_648) (stop_pks : List ℕ)
      (asked : contains stop_pks pk ≡ true) (listed_rules : List HeadsignRule)
      (by_priority : IsOrdered (rows_of_stops stop_pks (rows_in after)) listed_rules)
      → match_headsign (group_rules [] listed_rules) pk track ≡ some (custom_headsign g track)
  unfolding custom_rules custom_stops
  match-update-custom_stops lib records csv read config db after wrote g custom_stop pk known alone
        track small stop_pks asked listed_rules by_priority =
      let (rest, rules) = parse_csv-custom_rules lib records read in
      let (pks, listed, reads) = update_nyct_subway-rows q laws config csv db after wrote in
      let ordered =
        subst (λ rows. IsOrdered (rows_of_stops stop_pks rows) listed_rules) listed by_priority in
      let rows = rows_from pks 0 csv.stop_headsign_rules in
      match_headsign_lem listed_rules pk track
      ∙ first_fit-ordered stop_pks pk track 0 rows listed_rules
          (Increasing-rows_from pks 0 csv.stop_headsign_rules (omega (arith, small))) ordered asked
      ∙ ap (first_fit pk track) (rules_of-rows_from pks 0 csv.stop_headsign_rules)
      ∙ first_fit-rows_of_rules pks g.stop_id pk track csv.stop_headsign_rules (λ r m. (
        λ found. alone r.stop_id (sym (reads r m) ∙ found),
        λ same. reads r m ∙ ap pk_of same ∙ known,
      ))
      ∙ ap (first_rule g.stop_id track) rules
      ∙ first_rule-expand_rules custom_stops g track rest refl custom_stop
