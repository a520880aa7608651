-- ===== src/Realtime/Headsigns.antt =====
-- `StopHeadsignMatcher`: the headsign of a stop and a track by the rules of the database.
use Prim.Native.String.{String}
use transiter.Base.{
  Bool, List, Option, [], arith, false, if◌then◌else◌, nat_keys, nat_same_iff, none, not, refl,
  some, string_keys, true, ℕ, ◌&&◌, ◌++◌, ◌==◌, ◌∙◌, ◌∷◌, ◌≡◌,
}
use transiter.Base.Int.{int_keys}
use transiter.Base.Maps.{Map, insert, lookup, lookup-insert}
use transiter.Realtime.Alerts.Partition.{ids}
use transiter.Realtime.Types.{HeadsignRule, StopTimeUpdate, stop_pk_of}
use transiter.ServiceMaps.Reverse.{set}

-- The set of the stops of the trips; `NewStopHeadsignMatcher` asks the database for their rules.
unfoldable pub stop_pks_set : Map String ℕ → Map ℕ Bool → List StopTimeUpdate → Map ℕ Bool
stop_pks_set ids set [] = set
stop_pks_set ids set (u ∷ us) = elim (stop_pk_of ids u.stop_id) [
  | none ↦ stop_pks_set ids set us
  | some pk ↦ stop_pks_set ids (insert pk true set) us
]

abbrev pub rules_at : Map ℕ (List HeadsignRule) → ℕ → List HeadsignRule
rules_at m pk = elim (lookup pk m) [ none ↦ [] | some rs ↦ rs ]

-- The loop over the rows: the rules of each stop, in the order of the rows.
unfoldable pub group_rules :
    Map ℕ (List HeadsignRule) → List HeadsignRule → Map ℕ (List HeadsignRule)
group_rules m [] = m
group_rules m (row ∷ rows) =
    group_rules (insert row.stop_pk (rules_at m row.stop_pk ++ row ∷ []) m) rows

-- `track != nil && rule.Track.Valid && *track != rule.Track.String`
abbrev pub other_track : Option String → Option String → Bool
other_track (some t) (some r) = not (t == r)
other_track _ _ = false

unfoldable pub match_rules : List HeadsignRule → Option String → Option String
match_rules [] track = none
match_rules (rule ∷ rules) track =
    let later = match_rules rules track in
    if other_track track rule.track then later else some rule.headsign

unfoldable pub match_headsign : Map ℕ (List HeadsignRule) → ℕ → Option String → Option String
unfolding match_rules
match_headsign rules stop_pk track = match_rules (rules_at rules stop_pk) track

-- The track of a rule is the given one, where both are set.
abbrev pub fits : Option String → Option String → Bool
fits (some t) (some r) = t == r
fits _ _ = true

fits-other_track : (track rule : Option String) → fits track rule ≡ not (other_track track rule)
fits-other_track none rule = refl
fits-other_track (some t) none = refl
fits-other_track (some t) (some r) = ground arith

-- The first row of a list that is a rule for a stop and fits a track.
abbrev pub first_fit : ℕ → Option String → List HeadsignRule → Option String
first_fit stop_pk track [] = none
first_fit stop_pk track (row ∷ rows) =
    let later = first_fit stop_pk track rows in
    if row.stop_pk == stop_pk && fits track row.track then some row.headsign else later

abbrev pub or_else : Option String → Option String → Option String
or_else none b = b
or_else (some a) b = some a

match_rules-snoc :
    (rules : List HeadsignRule) (row : HeadsignRule) (track : Option String)
    → match_rules (rules ++ row ∷ []) track
      ≡ or_else
          (match_rules rules track)
          (if other_track track row.track then none else some row.headsign)
unfolding match_rules
match_rules-snoc [] row track = refl
match_rules-snoc (r ∷ rules) row track = ground (arith, match_rules-snoc rules row track)

match-group_rules :
    (m : Map ℕ (List HeadsignRule)) (rows : List HeadsignRule) (pk : ℕ) (track : Option String)
    → match_headsign (group_rules m rows) pk track
      ≡ or_else (match_headsign m pk track) (first_fit pk track rows)
unfolding group_rules match_headsign
match-group_rules m [] pk track = ground arith
match-group_rules m (row ∷ rows) pk track =
    match-group_rules (insert row.stop_pk (rules_at m row.stop_pk ++ row ∷ []) m) rows pk track
    ∙ ground (
      arith,
      lookup-insert row.stop_pk pk (rules_at m row.stop_pk ++ row ∷ []) m,
      match_rules-snoc (rules_at m row.stop_pk) row track,
      nat_same_iff row.stop_pk pk,
      fits-other_track track row.track,
    )

-- The matcher that is built from the rows of the database gives a stop and a track the headsign of
-- the first row for the stop whose track is the track, where both are set; none if no row fits.
pub match_headsign_lem :
    (rows : List HeadsignRule) (stop_pk : ℕ) (track : Option String)
    → match_headsign (group_rules [] rows) stop_pk track ≡ first_fit stop_pk track rows
unfolding match_headsign lookup
match_headsign_lem rows stop_pk track = match-group_rules [] rows stop_pk track
