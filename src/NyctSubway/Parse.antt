-- ===== src/NyctSubway/Parse.antt =====
-- Parse of internal/update/nyctsubwaycsv/nyctsubwaycsv.go, on the records of the CSV reader.
use Prim.Native.Char.{code}
use Prim.Native.String.{String, ◌++◌ as str_append}
use transiter.Base.{
  List, Option, [], contains, if◌then◌else◌, map, nat_keys, none, some, string_keys, suc, zero, ℕ,
  ◌++◌, ◌==◌, ◌∷◌,
}
use transiter.Base.Int.{int_keys}
use transiter.NyctSubway.{
  NyctSubwayStopCsvData, StopAccessibilityInfo, StopHeadsignRule, TextLib, WheelchairBoarding,
  not_possible, not_specified, possible,
}
use transiter.NyctSubway.CustomRules.{custom_rules}

-- strings.ReplaceAll of a text of one character
unfoldable pub replace_all : ℕ → String → String → String
replace_all from to String.[] = ""
replace_all from to (String.◌∷◌ c s) =
    let rest = replace_all from to s in
    if code c == from then str_append to rest else String.◌∷◌ c rest

-- The positions of the columns; none is -1.
pub record Columns : Type 0 where
  pub stop_id : Option ℕ
  pub north_headsign : Option ℕ
  pub south_headsign : Option ℕ
  pub ada : Option ℕ
  pub north_ada : Option ℕ
  pub south_ada : Option ℕ

pub record Positions : Type 0 where
  pub stop_id : ℕ
  pub north_headsign : ℕ
  pub south_headsign : ℕ
  pub ada : ℕ
  pub north_ada : ℕ
  pub south_ada : ℕ

abbrev pub no_columns : Columns
no_columns = record {
  stop_id = none;
  north_headsign = none;
  south_headsign = none;
  ada = none;
  north_ada = none;
  south_ada = none;
}

unfoldable pub read_header : String → ℕ → Columns → Columns
read_header header i cols =
    if header == "gtfs_stop_id"
    then record cols { stop_id = some i }
    else if header == "north_direction_label"
    then record cols { north_headsign = some i }
    else if header == "south_direction_label"
    then record cols { south_headsign = some i }
    else if header == "ada"
    then record cols { ada = some i }
    else if header == "ada_northbound"
    then record cols { north_ada = some i }
    else if header == "ada_southbound"
    then record cols { south_ada = some i }
    else cols

pub data Parsed {ℓ} (A : Type ℓ) : Type ℓ where
  parsed : A → Parsed A
  parse_error : String → Parsed A
  -- An index that is out of range.
  parse_panics : Parsed A

abbrev pub required_columns : Columns → Parsed Positions
required_columns cols = elim cols.stop_id [
  | none ↦ parse_error "subway.csv file is missing the stop ID column"
  | some stop_id ↦ elim cols.north_headsign [
    | none ↦ parse_error "subway.csv file is missing the north headsign/label column"
    | some north_headsign ↦ elim cols.south_headsign [
      | none ↦ parse_error "subway.csv file is missing the south headsign/label column"
      | some south_headsign ↦ elim cols.ada [
        | none ↦ parse_error "subway.csv file is missing the ada column"
        | some ada ↦ elim cols.north_ada [
          | none ↦ parse_error "subway.csv file is missing the north ada column"
          | some north_ada ↦ elim cols.south_ada [
            | none ↦ parse_error "subway.csv file is missing the south ada column"
            | some south_ada ↦ parsed (record {
              stop_id = stop_id;
              north_headsign = north_headsign;
              south_headsign = south_headsign;
              ada = ada;
              north_ada = north_ada;
              south_ada = south_ada;
            })
          ]
        ]
      ]
    ]
  ]
]

unfoldable pub cell : ℕ → List String → Option String
cell i [] = none
cell zero (c ∷ row) = some c
cell (suc i) (c ∷ row) = cell i row

unfoldable pub convert_ada_column : String → WheelchairBoarding
convert_ada_column s =
    if s == "0"
    then not_possible
    else if s == "1"
    then possible
    else if s == "2"
    then possible
    else not_specified

module _ (lib : TextLib) where
  -- The loop over the header, from a position on.
  unfoldable pub read_headers : ℕ → List String → Columns → Columns
  unfolding read_header replace_all
  read_headers i [] cols = cols
  read_headers i (header ∷ headers) cols =
      read_headers (suc i) headers (read_header (replace_all 32 "_" (lib.to_lower header)) i cols)

  unfoldable pub clean_headsign : String → Option String
  unfolding replace_all
  clean_headsign s =
      let trimmed = lib.trim_space s in
      if trimmed == "" then none else some (replace_all 38 "and" trimmed)

  -- The rule of a direction of a row, if it has one.
  unfoldable pub direction_rule : List String → String → String → List StopHeadsignRule
  unfolding clean_headsign
  direction_rule custom_ids stop_id label = elim (clean_headsign label) [
    | none ↦ []
    | some headsign ↦
        if contains custom_ids stop_id
        then []
        else record { stop_id = stop_id; track = none; headsign = headsign } ∷ []
  ]

  -- The first loop over the rows; none is a panic.
  unfoldable pub row_rules :
      Positions → List String → List (List String) → Option (List StopHeadsignRule)
  unfolding cell direction_rule
  row_rules p custom_ids [] = some []
  row_rules p custom_ids (row ∷ later) = elim (cell p.stop_id row) [
    | none ↦ none
    | some id ↦ elim (cell p.north_headsign row) [
      | none ↦ none
      | some north ↦ elim (cell p.south_headsign row) [
        | none ↦ none
        | some south ↦ elim (row_rules p custom_ids later) [
          | none ↦ none
          | some rules ↦ some (
              direction_rule custom_ids (str_append id "N") north
              ++ direction_rule custom_ids (str_append id "S") south
              ++ rules)
        ]
      ]
    ]
  ]

  abbrev pub ada_info : String → String → StopAccessibilityInfo
  unfolding convert_ada_column
  ada_info id ada = record { stop_id = id; wheelchair_boarding = convert_ada_column ada }

  -- The second loop over the rows; none is a panic.
  unfoldable pub row_ada : Positions → List (List String) → Option (List StopAccessibilityInfo)
  unfolding cell ada_info
  row_ada p [] = some []
  row_ada p (row ∷ later) = elim (cell p.stop_id row) [
    | none ↦ none
    | some id ↦ elim (cell p.ada row) [
      | none ↦ none
      | some ada ↦ elim (cell p.north_ada row) [
        | none ↦ none
        | some north ↦ elim (cell p.south_ada row) [
          | none ↦ none
          | some south ↦ elim (row_ada p later) [
            | none ↦ none
            | some infos ↦ some (
                ada_info id ada
                ∷ ada_info (str_append id "N") north
                ∷ ada_info (str_append id "S") south
                ∷ infos)
          ]
        ]
      ]
    ]
  ]

  -- Parse, where the CSV reader gives the records; none is its error.
  unfoldable pub parse_rows : Positions → List (List String) → Parsed NyctSubwayStopCsvData
  unfolding row_rules row_ada custom_rules
  parse_rows p later = elim (row_rules p (map (λ r. r.stop_id) custom_rules) later) [
    | none ↦ parse_panics
    | some rules ↦ elim (row_ada p later) [
      | none ↦ parse_panics
      | some infos ↦
          parsed (record {
            stop_headsign_rules = custom_rules ++ rules;
            stop_accessibility_data = infos;
          })
    ]
  ]

  unfoldable pub parse_csv : List (List String) → Parsed NyctSubwayStopCsvData
  unfolding read_headers parse_rows required_columns
  parse_csv [] = parse_error "subway.csv file contains no header row"
  parse_csv (headers ∷ later) = elim (required_columns (read_headers 0 headers no_columns)) [
    | parsed p ↦ parse_rows p later
    | parse_error text ↦ parse_error text
    | parse_panics ↦ parse_panics
  ]
