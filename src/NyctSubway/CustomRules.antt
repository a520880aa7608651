-- ===== src/NyctSubway/CustomRules.antt =====
-- customRules of internal/update/nyctsubwaycsv/nyctsubwaycsv.go.
use Prim.Native.String.{String}
use transiter.Base.{List, [], nat_keys, none, some, string_keys, ◌∷◌}
use transiter.Base.Int.{int_keys}
use transiter.NyctSubway.{StopHeadsignRule}

pub record CustomRule : Type 0 where
  pub stop_id : String
  pub track : String
  pub track_headsign : String
  pub default_headsign : String

abbrev pub custom : String → String → String → String → CustomRule
custom stop_id track track_headsign default_headsign = record {
  stop_id = stop_id;
  track = track;
  track_headsign = track_headsign;
  default_headsign = default_headsign;
}

abbrev east_side_and_queens : String
east_side_and_queens = "East Side and Queens"

abbrev manhattan : String
manhattan = "Manhattan"

abbrev rockaways : String
rockaways = "Euclid - Lefferts - Rockaways"

abbrev uptown : String
uptown = "Uptown"

abbrev uptown_and_the_bronx : String
uptown_and_the_bronx = "Uptown and The Bronx"

abbrev queens : String
queens = "Queens"

unfoldable pub custom_stops : List CustomRule
custom_stops =
    custom "A42N" "E2" "Court Sq, Queens" manhattan
    ∷ custom "A42S" "E1" "Church Av, Brooklyn" rockaways
    ∷ custom "A41S" "B1" "Coney Island" rockaways
    ∷ custom "A25N" "D4" east_side_and_queens uptown_and_the_bronx
    ∷ custom "D15N" "B2" east_side_and_queens uptown_and_the_bronx
    ∷ custom "R14N" "A4" uptown queens
    ∷ custom "B08N" "T2" queens uptown
    ∷ custom "D14N" "D4" east_side_and_queens uptown_and_the_bronx
    ∷ custom "D26N" "A2" "Franklin Avenue" manhattan
    ∷ []

unfoldable pub expand_rules : List CustomRule → List StopHeadsignRule
expand_rules [] = []
expand_rules (g ∷ groups) =
    record { stop_id = g.stop_id; track = some g.track; headsign = g.track_headsign }
    ∷ record { stop_id = g.stop_id; track = none; headsign = g.default_headsign }
    ∷ expand_rules groups

unfoldable pub custom_rules : List StopHeadsignRule
unfolding custom_stops expand_rules
custom_rules = expand_rules custom_stops
