-- ===== src/ServiceMaps/TripKey.antt =====
-- `calculateTripKey` and the edges of a trip in `buildStaticMaps`: trips that visit the same
-- stations, in one direction or the other, share a key.
pub mod SameKey
use Prim.Native.String.{String, ◌++◌ as str_append}
use transiter.Base.{
  Bool, List, [], false, if◌then◌else◌, nat_keys, none, some, string_keys, true, ℕ, ◌∷◌,
}
use transiter.Base.Maps.{Map, lookup}
use transiter.Graph.Types.{Edge, edge_keys}
use transiter.ServiceMaps.Reverse.{reverse_slice}
use transiter.ServiceMaps.Types.{
  DirectionId, GoLib, ScheduledTrip, StopTime, direction_false, direction_true,
}

-- The loop that collects the stations; a stop with no station is passed over.
unfoldable pub station_pks : Map String ℕ → List StopTime → List ℕ
station_pks stations [] = []
station_pks stations (s ∷ ss) =
    let rest = station_pks stations ss in
    elim (lookup s.stop_id stations) [ none ↦ rest | some pk ↦ pk ∷ rest ]

-- The stations of a trip, last one first for a trip in the direction `True`.
unfoldable pub orient : DirectionId → List ℕ → List ℕ
unfolding reverse_slice
orient direction_true pks = reverse_slice pks
orient _ pks = pks

unfoldable pub key_stations : Map String ℕ → ScheduledTrip → List ℕ
unfolding station_pks orient
key_stations stations trip = orient trip.direction_id (station_pks stations trip.stop_times)

-- The string builder.
unfoldable pub write_key : (ℕ → String) → List ℕ → String
write_key sprintf_key [] = ""
write_key sprintf_key (pk ∷ pks) = str_append (sprintf_key pk) (write_key sprintf_key pks)

unfoldable pub calculate_trip_key : GoLib → ScheduledTrip → Map String ℕ → String
unfolding key_stations write_key
calculate_trip_key lib trip stations = write_key lib.sprintf_key (key_stations stations trip)

abbrev pub is_direction_false : DirectionId → Bool
is_direction_false direction_false = true
is_direction_false _ = false

-- The loop over `j` of `buildStaticMaps`, from the stop before `j` on.
unfoldable pub edges_from : Bool → Map String ℕ → StopTime → List StopTime → List Edge
edges_from backwards stations prev [] = []
edges_from backwards stations prev (s ∷ ss) =
    let rest = edges_from backwards stations s ss in
    let from = if backwards then s else prev in
    let to = if backwards then prev else s in
    elim (lookup from.stop_id stations) [
      | none ↦ rest
      | some from_label ↦ elim (lookup to.stop_id stations) [
        | none ↦ rest
        | some to_label ↦ record { from_label = from_label; to_label = to_label } ∷ rest
      ]
    ]

unfoldable pub edges_of : Bool → Map String ℕ → List StopTime → List Edge
unfolding edges_from
edges_of backwards stations [] = []
edges_of backwards stations (first ∷ rest) = edges_from backwards stations first rest

unfoldable pub trip_edges : Map String ℕ → ScheduledTrip → List Edge
unfolding edges_of
trip_edges stations trip = edges_of (is_direction_false trip.direction_id) stations trip.stop_times
