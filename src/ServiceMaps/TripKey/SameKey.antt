-- ===== src/ServiceMaps/TripKey/SameKey.antt =====
-- The key and the edges of a trip in terms of its stations, for `calculateTripKey` and
-- `buildStaticMaps` of internal/servicemaps/servicemaps.go.
use Prim.Native.String.{String, ◌++◌ as str_append}
use mathlib.Core.List.{reverse, reverse-cons}
use transiter.Base.{
  List, [], ap, arith, contains, contains-append, false, nat_keys, refl, string_keys, sym, true, ℕ,
  ◌++◌, ◌∙◌, ◌∷◌, ◌≡◌, ◌≢◌,
}
use transiter.Base.Maps.{Map, keys, lookup_of_contains-keys}
use transiter.Graph.Types.{Edge, edge_keys}
use transiter.ServiceMaps.Reverse.{reverse_slice_lem}
use transiter.ServiceMaps.TripKey.{
  calculate_trip_key, edges_from, edges_of, is_direction_false, key_stations, orient, station_pks,
  trip_edges, write_key,
}
use transiter.ServiceMaps.Types.{
  DirectionId, GoLib, ScheduledTrip, StopTime, direction_false, direction_true,
  direction_unspecified,
}

-- From each station of a key to the station before it.
abbrev pub links : List ℕ → List Edge
links [] = []
links (a ∷ []) = []
links (a ∷ b ∷ pks) = record { from_label = b; to_label = a } ∷ links (b ∷ pks)

-- From each station to the next one.
abbrev pub forward_links : List ℕ → List Edge
forward_links [] = []
forward_links (a ∷ []) = []
forward_links (a ∷ b ∷ pks) = record { from_label = a; to_label = b } ∷ forward_links (b ∷ pks)

abbrev pub AllKnown : Map String ℕ → List StopTime → Type 0
AllKnown stations [] = Unit
AllKnown stations (s ∷ ss) = (contains (keys stations) s.stop_id ≡ true) × AllKnown stations ss

backward-edges :
    (stations : Map String ℕ) (prev : StopTime) (ss : List StopTime)
    → AllKnown stations (prev ∷ ss)
    → edges_from true stations prev ss ≡ links (station_pks stations (prev ∷ ss))
unfolding edges_from station_pks
backward-edges stations prev [] known =
    ground (arith, lookup_of_contains-keys prev.stop_id stations known.0)
backward-edges stations prev (s ∷ ss) known =
    let (a, p) = lookup_of_contains-keys prev.stop_id stations known.0 in
    let (b, q) = lookup_of_contains-keys s.stop_id stations known.1.0 in
    ground (arith, p, q, backward-edges stations s ss known.1)

forward-edges :
    (stations : Map String ℕ) (prev : StopTime) (ss : List StopTime)
    → AllKnown stations (prev ∷ ss)
    → edges_from false stations prev ss ≡ forward_links (station_pks stations (prev ∷ ss))
unfolding edges_from station_pks
forward-edges stations prev [] known =
    ground (arith, lookup_of_contains-keys prev.stop_id stations known.0)
forward-edges stations prev (s ∷ ss) known =
    let (a, p) = lookup_of_contains-keys prev.stop_id stations known.0 in
    let (b, q) = lookup_of_contains-keys s.stop_id stations known.1.0 in
    ground (arith, p, q, forward-edges stations s ss known.1)

links-snoc :
    (pks : List ℕ) (b a : ℕ)
    → links ((pks ++ b ∷ []) ++ a ∷ [])
      ≡ links (pks ++ b ∷ []) ++ record { from_label = a; to_label = b } ∷ []
links-snoc [] b a = refl
links-snoc (x ∷ []) b a = refl
links-snoc (x ∷ y ∷ pks) b a =
    ap (λ es. record { from_label = y; to_label = x } ∷ es) (links-snoc (y ∷ pks) b a)

-- Read backwards, the steps of a list of stations are its links.
contains-links-reverse :
    (pks : List ℕ) (e : Edge) → contains (links (reverse pks)) e ≡ contains (forward_links pks) e
contains-links-reverse [] e = refl
contains-links-reverse (a ∷ []) e = refl
contains-links-reverse (a ∷ b ∷ pks) e =
    let shape : reverse (b ∷ pks) ≡ reverse pks ++ b ∷ [] = reverse-cons b pks in
    let last : Edge = record { from_label = a; to_label = b } in
    let split : links (reverse (a ∷ b ∷ pks)) ≡ links (reverse (b ∷ pks)) ++ last ∷ [] =
      ap links (reverse-cons a (b ∷ pks)) ∙ rw shape (links-snoc (reverse pks) b a) in
    rw split (
      contains-append (links (reverse (b ∷ pks))) (last ∷ []) e
      ∙ ground (arith, contains-links-reverse (b ∷ pks) e))

edges_of-backward :
    (stations : Map String ℕ) (ss : List StopTime)
    → AllKnown stations ss
    → edges_of true stations ss ≡ links (station_pks stations ss)
unfolding edges_of station_pks
edges_of-backward stations [] known = refl
edges_of-backward stations (s ∷ ss) known = backward-edges stations s ss known

edges_of-forward :
    (stations : Map String ℕ) (ss : List StopTime)
    → AllKnown stations ss
    → edges_of false stations ss ≡ forward_links (station_pks stations ss)
unfolding edges_of station_pks
edges_of-forward stations [] known = refl
edges_of-forward stations (s ∷ ss) known = forward-edges stations s ss known

by_direction :
    (stations : Map String ℕ) (d : DirectionId) (ss : List StopTime) (e : Edge)
    → d ≢ direction_unspecified
    → AllKnown stations ss
    → contains (edges_of (is_direction_false d) stations ss) e
      ≡ contains (links (orient d (station_pks stations ss))) e
unfolding orient
by_direction stations direction_unspecified ss e directed known = absurd (directed refl)
by_direction stations direction_true ss e directed known =
    rw (edges_of-forward stations ss known, reverse_slice_lem (station_pks stations ss))
      (sym (contains-links-reverse (station_pks stations ss) e))
by_direction stations direction_false ss e directed known =
    ap (λ es. contains es e) (edges_of-backward stations ss known)

-- The edges of a trip in a direction, whose stops all have a station, are the links of its key.
pub contains-trip_edges :
    (stations : Map String ℕ) (trip : ScheduledTrip) (e : Edge)
    → trip.direction_id ≢ direction_unspecified
    → AllKnown stations trip.stop_times
    → contains (trip_edges stations trip) e ≡ contains (links (key_stations stations trip)) e
unfolding trip_edges key_stations
contains-trip_edges stations trip = by_direction stations trip.direction_id trip.stop_times

-- `fmt.Sprintf("%d-", pk)` ends at its dash: what is written after it can be read off.
abbrev pub IsPrefixFree : (ℕ → String) → Type 0
IsPrefixFree sprintf_key =
    (a b : ℕ) (s t : String)
    → str_append (sprintf_key a) s ≡ str_append (sprintf_key b) t
    → (a ≡ b) × (s ≡ t)

abbrev pub IsNonempty : (ℕ → String) → Type 0
IsNonempty sprintf_key = (a : ℕ) (s : String) → str_append (sprintf_key a) s ≢ ""

write_key_injective :
    (sprintf_key : ℕ → String)
    → IsPrefixFree sprintf_key
    → IsNonempty sprintf_key
    → (xs ys : List ℕ) → write_key sprintf_key xs ≡ write_key sprintf_key ys
    → xs ≡ ys
unfolding write_key
write_key_injective f free full [] [] h = refl
write_key_injective f free full [] (y ∷ ys) h = absurd (full y (write_key f ys) (sym h))
write_key_injective f free full (x ∷ xs) [] h = absurd (full x (write_key f xs) h)
write_key_injective f free full (x ∷ xs) (y ∷ ys) h =
    let (same, rest) = free x y (write_key f xs) (write_key f ys) h in
    ground (arith, same, write_key_injective f free full xs ys rest)

-- Two trips in a direction, whose stops all have a station, have the same edges if they have the
-- same key, where the text of a primary key can be read off from what follows it.
pub same_key_same_edges :
    (lib : GoLib) (stations : Map String ℕ) (s t : ScheduledTrip) (e : Edge)
    → IsPrefixFree lib.sprintf_key
    → IsNonempty lib.sprintf_key
    → s.direction_id ≢ direction_unspecified
    → t.direction_id ≢ direction_unspecified
    → AllKnown stations s.stop_times
    → AllKnown stations t.stop_times
    → calculate_trip_key lib s stations ≡ calculate_trip_key lib t stations
    → contains (trip_edges stations s) e ≡ contains (trip_edges stations t) e
unfolding calculate_trip_key
same_key_same_edges lib stations s t e free full ds dt ks kt same =
    let stops =
      write_key_injective lib.sprintf_key free full (key_stations stations s)
        (key_stations stations t) same in
    contains-trip_edges stations s e ds ks
    ∙ ap (λ pks. contains (links pks) e) stops
    ∙ sym (contains-trip_edges stations t e dt kt)
