-- ===== src/ServiceMaps/Updates/Written.antt =====
-- What the database has of the service maps after `persistMap`, of
-- internal/servicemaps/servicemaps.go, is called for each realtime configuration.
use Prim.Native.String.{String}
use transiter.Base.{
  Bool, List, Option, Option-cases, [], ap, arith, false, if◌then◌else◌, inl, inr, nat_keys,
  nat_same_iff, none, refl, some, string_keys, suc, sym, ℕ, ◌%◌, ◌&&◌, ◌==◌, ◌||◌, ◌∷◌, ◌≡◌,
}
use transiter.Base.Int.{int32_of_uint32, int_keys, ℤ}
use transiter.ServiceMaps.RealtimeMaps.{MapQueries, ServiceMapStop, map_stops, persist_map}
use transiter.ServiceMaps.Types.{GoLib, ServiceMapConfig}
use transiter.ServiceMaps.Updates.{UpdateQueries, persist_realtime}

-- A map is the positions and the stops of its rows.
abbrev pub ServiceMap : Type 0
ServiceMap = List (ℤ × ℕ)

-- The stops of a route in the order in which it serves them, from a position on.
abbrev pub numbered : ℕ → List ℕ → ServiceMap
numbered i [] = []
numbered i (pk ∷ pks) = (int32_of_uint32 i, pk) ∷ numbered (suc i) pks

abbrev pub rows_of_map : ℕ → List ServiceMapStop → ServiceMap
rows_of_map map_pk [] = []
rows_of_map map_pk (row ∷ rows) =
    if row.map_pk == map_pk
    then (row.position, row.stop_pk) ∷ rows_of_map map_pk rows
    else rows_of_map map_pk rows

-- The map of a configuration and a route is replaced, and the others stay.
abbrev pub Replaces :
    {Db : Type 0}
    → (Db → ℕ → ℕ → Option ServiceMap)
    → Db
    → Db
    → (ℕ → Bool)
    → ℕ
    → Option ServiceMap
    → Type 0
Replaces stored before after is_config route_pk m =
    (config_pk other_route : ℕ)
    → stored after config_pk other_route ≡ (
        if is_config config_pk && route_pk == other_route
        then m
        else stored before config_pk other_route)

-- What is relied on of the queries: a map is deleted with its rows, and a new map has the rows that
-- are inserted for its primary key; `stored` is the map of a configuration and a route.
pub record MapLaws {Db : Type 0} (q : MapQueries Db) (stored : Db → ℕ → ℕ → Option ServiceMap)
    : Type 0 where
  pub deletes :
      (d after : Db) (config_pk route_pk : ℕ)
      → q.delete_service_map config_pk route_pk d ≡ some after
      → Replaces stored d after (λ c. config_pk == c) route_pk none
  pub fills :
      (d created after : Db) (config_pk route_pk map_pk : ℕ) (rows : List ServiceMapStop)
      → q.insert_service_map config_pk route_pk d ≡ some (map_pk, created)
      → q.insert_service_map_stops rows created ≡ some after
      → Replaces stored d after (λ c. config_pk == c) route_pk (some (rows_of_map map_pk rows))

rows_of_map-map_stops :
    (map_pk i : ℕ) (pks : List ℕ) → rows_of_map map_pk (map_stops map_pk i pks) ≡ numbered i pks
unfolding map_stops
rows_of_map-map_stops map_pk i [] = refl
rows_of_map-map_stops map_pk i (pk ∷ pks) =
    let rest = rows_of_map-map_stops map_pk (suc i) pks in
    let position : int32_of_uint32 (i % 4_294_967_296) ≡ int32_of_uint32 i = ground arith in
    rw ((nat_same_iff map_pk map_pk).1 refl, position)
      (ap (λ rows. (int32_of_uint32 i, pk) ∷ rows) rest)

module _ {Db : Type 0} (q : MapQueries Db) {stored : Db → ℕ → ℕ → Option ServiceMap}
    (laws : MapLaws q stored) where
  persist_map-Replaces :
      (config_pk route_pk : ℕ) (pks : List ℕ) (d after : Db)
      → persist_map q config_pk route_pk pks d ≡ some after
      → Replaces stored d after (λ c. config_pk == c) route_pk (some (numbered 0 pks))
  unfolding persist_map
  persist_map-Replaces config_pk route_pk pks d after e c r =
      elim (Option-cases (q.delete_service_map config_pk route_pk d)) [
        | inl fails ↦ absurd (cc (rw (fails, persist_map) at e))
        | inr (deleted, e1) ↦
            elim (Option-cases (q.insert_service_map config_pk route_pk deleted)) [
              | inl fails ↦ absurd (cc (rw (e1, fails, persist_map) at e))
              | inr ((map_pk, created), e2) ↦
                  let left = rw (e1, e2, persist_map) at e in
                  let filled =
                    laws.fills deleted created after config_pk route_pk map_pk
                      (map_stops map_pk 0 pks) e2 left c r in
                  let gone = laws.deletes d deleted config_pk route_pk e1 c r in
                  ground (arith, filled, gone, rows_of_map-map_stops map_pk 0 pks)
            ]
      ]

abbrev pub is_among : {C : Type 0} → List (ℕ × C) → ℕ → Bool
is_among [] c = false
is_among ((pk, smc) ∷ smcs) c = pk == c || is_among smcs c

module _ (lib : GoLib) (unmarshal : String → Option (ServiceMapConfig lib.Float)) {Db : Type 0}
    (q : UpdateQueries Db) {stored : Db → ℕ → ℕ → Option ServiceMap}
    (laws : MapLaws q.maps stored) where
  pub persist_realtime-Replaces :
      (smcs : List (ℕ × ServiceMapConfig lib.Float)) (route_pk : ℕ) (pks : List ℕ) (d after : Db)
      → persist_realtime lib unmarshal q smcs route_pk pks d ≡ some after
      → Replaces stored d after (is_among smcs) route_pk (some (numbered 0 pks))
  unfolding persist_realtime
  persist_realtime-Replaces [] route_pk pks d after e c r =
      let same : d ≡ after = ground (arith, e) in ap (λ k. stored k c r) (sym same)
  persist_realtime-Replaces ((pk, smc) ∷ smcs) route_pk pks d after e c r =
      elim (Option-cases (persist_map q.maps pk route_pk pks d)) [
        | inl fails ↦ absurd (cc (rw (fails, persist_realtime) at e))
        | inr (next, e1) ↦
            let rest =
              persist_realtime-Replaces smcs route_pk pks next after
                (rw (e1, persist_realtime) at e) c r in
            let first = persist_map-Replaces q.maps laws pk route_pk pks d next e1 c r in
            ground (arith, rest, first)
      ]
