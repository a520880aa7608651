-- ===== src/ServiceMaps/Updates/Links.antt =====
-- The edges of `buildRealtimeMapEdges`: from each station of a trip to the next one.
use transiter.Base.{
  Bool, Bool-cases, List, Memᴰ-contains, Option-cases, [], arith, contains, contains-Memᴰ,
  contains-append, inl, inr, nat_keys, none, refl, some, string_keys, sym, true, ℕ, ◌++◌, ◌==◌,
  ◌||◌, ◌∙◌, ◌∷◌, ◌≡◌,
}
use transiter.Base.Int.{int_keys}
use transiter.Base.Maps.{Map, contains-keys-insert, insert, keys, lookup}
use transiter.Graph.Sort.Topological.{IsTopologicalOrder}
use transiter.Graph.Types.{Edge, edge_keys}
use transiter.Graph.Types.Adjacency.{is_end}
use transiter.ServiceMaps.RealtimeMaps.{
  add_all_edges, add_trip_edges, build_realtime_map_edges, station_or_zero,
}

abbrev pub station_of : Map ℕ ℕ → ℕ → ℕ
station_of stations pk = elim (lookup pk stations) [ none ↦ 0 | some station_pk ↦ station_pk ]

-- The stops of each trip in the order of travel; an edge for each stop and the next one.
abbrev pub trip_links : Map ℕ ℕ → List ℕ → List Edge
trip_links stations [] = []
trip_links stations (a ∷ []) = []
trip_links stations (a ∷ b ∷ pks) =
    record { from_label = station_of stations a; to_label = station_of stations b }
    ∷ trip_links stations (b ∷ pks)

abbrev pub all_links : Map ℕ ℕ → List (List ℕ) → List Edge
all_links stations [] = []
all_links stations (pks ∷ trips) = trip_links stations pks ++ all_links stations trips

station_or_zero-of :
    (stations : Map ℕ ℕ) (pk : ℕ) → station_or_zero (lookup pk stations) ≡ station_of stations pk
station_or_zero-of stations pk = elim (Option-cases (lookup pk stations)) [
  | inl absent ↦ rw (absent, station_of) refl
  | inr (station_pk, known) ↦ rw (known, station_of) refl
]

contains-add_trip_edges :
    (stations : Map ℕ ℕ) (m : Map Edge Bool) (pks : List ℕ) (e : Edge)
    → contains (keys (add_trip_edges stations m pks)) e
      ≡ (contains (trip_links stations pks) e || contains (keys m) e)
unfolding add_trip_edges
contains-add_trip_edges stations m [] e = refl
contains-add_trip_edges stations m (a ∷ []) e = refl
contains-add_trip_edges stations m (a ∷ b ∷ pks) e =
    let link : Edge = record {
      from_label = station_or_zero (lookup a stations);
      to_label = station_or_zero (lookup b stations);
    } in
    let rest = contains-add_trip_edges stations (insert link true m) (b ∷ pks) e in
    rest
    ∙ ground (
      arith,
      contains-keys-insert link e true m,
      station_or_zero-of stations a,
      station_or_zero-of stations b,
    )

contains-add_all_edges :
    (stations : Map ℕ ℕ) (m : Map Edge Bool) (trips : List (List ℕ)) (e : Edge)
    → contains (keys (add_all_edges stations m trips)) e
      ≡ (contains (all_links stations trips) e || contains (keys m) e)
unfolding add_all_edges
contains-add_all_edges stations m [] e = refl
contains-add_all_edges stations m (pks ∷ trips) e = ground (
  arith,
  contains-add_all_edges stations (add_trip_edges stations m pks) trips e,
  contains-add_trip_edges stations m pks e,
  contains-append (trip_links stations pks) (all_links stations trips) e,
)

-- The edges are the links of the trips.
pub contains-build_realtime_map_edges :
    (stations : Map ℕ ℕ) (trips : List (List ℕ)) (e : Edge)
    → contains (keys (build_realtime_map_edges trips stations)) e
      ≡ contains (all_links stations trips) e
unfolding build_realtime_map_edges
contains-build_realtime_map_edges stations trips e =
    ground (arith, contains-add_all_edges stations [] trips e)

-- What is an end of an edge, and in which order they stand, depends on the set of edges only.
is_end-contains :
    (es others : List Edge) (l : ℕ)
    → ((e : Edge) → contains es e ≡ true → contains others e ≡ true)
    → is_end es l ≡ true
    → is_end others l ≡ true
is_end-contains [] others l same h = absurd (cc h)
is_end-contains (e ∷ es) others l same h =
    elim (Bool-cases (e.from_label == l || e.to_label == l)) [
      | inl mine ↦ is_end-member others e l (same e (ground (arith, edge_keys.same_iff e e))) mine
      | inr other ↦
          is_end-contains es others l (λ k inside. same k (ground (arith, inside)))
            (ground (arith, h, other))
    ]
  where
    is_end-member :
        (es : List Edge) (e : Edge) (l : ℕ)
        → contains es e ≡ true
        → (e.from_label == l || e.to_label == l) ≡ true
        → is_end es l ≡ true
    is_end-member [] e l inside mine = absurd (cc inside)
    is_end-member (k ∷ es) e l inside mine =
        ground (arith, edge_keys.same_iff k e, is_end-member es e l, inside, mine)

pub IsTopologicalOrder-contains :
    (es others : List Edge) (order : List ℕ)
    → ((e : Edge) → contains es e ≡ contains others e)
    → IsTopologicalOrder es order
    → IsTopologicalOrder others order
IsTopologicalOrder-contains es others order same o = record {
  distinct = o.distinct;
  complete = λ l. o.complete l ∙ elim (Bool-cases (is_end es l)) [
    | inl touches ↦
        touches ∙ sym (is_end-contains es others l (λ e inside. sym (same e) ∙ inside) touches)
    | inr apart ↦ elim (Bool-cases (is_end others l)) [
      | inl there ↦
          absurd
            (ground (arith, apart, is_end-contains others es l (λ e inside. same e ∙ inside) there))
      | inr absent ↦ apart ∙ sym absent
    ]
  ];
  sorted_by_edges =
      λ e m. o.sorted_by_edges e (contains-Memᴰ es e (same e ∙ Memᴰ-contains others e m));
}
