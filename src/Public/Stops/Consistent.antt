-- ===== src/Public/Stops/Consistent.antt =====
-- getRawStopData of internal/public/endpoints/stop.go on a database whose queries succeed and whose
-- references are to rows that it has.
use transiter.Base.{
  Bool, Bool-cases, List, [], arith, contains, false, if◌then◌else◌, inl, inr, map, nat_keys, refl,
  string_keys, true, ℕ, ◌&&◌, ◌∷◌, ◌≡◌,
}
use transiter.Base.Int.{int_keys}
use transiter.Public.Reference.{PublicLibrary}
use transiter.Public.Results.{Queried, answer, reply}
use transiter.Public.Stops.{
  DbStop, DbTransfer, DestinationRow, HeadsignRuleRow, RawStopData, RouteByPkRow, Skip,
  StopAlertRow, StopByPkRow, StopConfigRow, StopQueries, StopServiceMapRow, StopTimeByStopRow,
}
use transiter.Public.Stops.Lifting.{contains-add_pks}
use transiter.Public.Stops.RawData.{
  add_pks, children_of_rows, descendents_of_rows, get_raw_stop_data, parent_pks, root_pks,
  union_pks, unless_skipped,
}
use transiter.ServiceMaps.StaticMaps.Counts.{key_of}

abbrev pub every {ℓ} : {A : Type ℓ} → (A → Bool) → List A → Bool
every p [] = true
every p (x ∷ xs) = p x && every p xs

pub every_of {ℓ} :
    {A : Type ℓ} (p r : A → Bool) (xs : List A)
    → ((x : A) → p x ≡ true → r x ≡ true)
    → every p xs ≡ true
    → every r xs ≡ true
every_of p r [] step h = refl
every_of p r (x ∷ xs) step h = ground (arith, step x, every_of p r xs step)

every-contains :
    {A : Type 0} (key_of : A → ℕ) (p : A → Bool) (xs : List A)
    → every p xs ≡ true
    → every (λ x. p x && contains (map key_of xs) (key_of x)) xs ≡ true
every-contains {A} key_of p xs h = go xs xs h (λ x m. m)
  where
    go :
        (ys zs : List A)
        → every p ys ≡ true
        → ((k : ℕ) → contains (map key_of ys) k ≡ true → contains (map key_of zs) k ≡ true)
        → every (λ x. p x && contains (map key_of zs) (key_of x)) ys ≡ true
    go [] zs h within = refl
    go (y ∷ ys) zs h within = ground (
      arith,
      nat_keys.same_iff (key_of y) (key_of y),
      within (key_of y),
      go ys zs (ground arith) (λ k m. within k (ground (arith, m))),
    )

pub both_true : (a b : Bool) → (a && b) ≡ true → (a ≡ true) × (b ≡ true)
both_true true b h = (refl, h)
both_true false b h = absurd (cc h)

contains-add_pks_left :
    (xs ys : List ℕ) (k : ℕ) → contains xs k ≡ true → contains (add_pks xs ys) k ≡ true
contains-add_pks_left xs ys k h = ground (arith, contains-add_pks xs ys k)

module _ {lib : PublicLibrary} {R : Type 0} (q : StopQueries lib R) (known_route : ℕ → Bool) where
  -- The queries succeed. The routes of stop times and of service maps are known, the database gives
  -- a row for each known route, and a service map has the configuration of its stop.
  pub record Consistent : Type 0 where
    pub children : (pks : List ℕ) → (a : List (ℕ × ℕ)) × (q.child_pks pks ≡ answer a)
    pub descendents : (pks : List ℕ) → (a : List (ℕ × ℕ)) × (q.descendent_pks pks ≡ answer a)
    pub transfers : (pks : List ℕ) → (a : List DbTransfer) × (q.transfers_from_stops pks ≡ answer a)
    pub alerts :
        (pks : List ℕ) (now : lib.Time)
        → (a : List StopAlertRow) × (q.active_alerts_for_stops pks now ≡ answer a)
    pub stop_times :
        (pks : List ℕ)
        → (a : List (StopTimeByStopRow lib.Time)) × (q.stop_times_by_stops pks ≡ answer a)
          × (every (λ t. known_route t.route_pk) a ≡ true)
    pub destinations :
        (pks : List ℕ) → (a : List DestinationRow) × (q.destinations_for_trips pks ≡ answer a)
    pub service_maps :
        (pks : List ℕ)
        → (a : List StopServiceMapRow) × (configs : List StopConfigRow) × (q.service_maps_for_stops
              pks
            ≡ answer a)
          × (q.config_ids_for_stops pks ≡ answer configs)
          × (every (λ m. contains (map (λ c. c.pk) configs) m.stop_pk) a ≡ true)
    pub headsign_rules :
        (pks : List ℕ) → (a : List HeadsignRuleRow) × (q.headsign_rules_for_stops pks ≡ answer a)
    pub stops : (pks : List ℕ) → (a : List StopByPkRow) × (q.stops_by_pk pks ≡ answer a)
    pub routes :
        (pks : List ℕ)
        → (a : List RouteByPkRow) × (q.routes_by_pk pks ≡ answer a)
          × ((pk : ℕ)
              → contains pks pk ≡ true
              → known_route pk ≡ true
              → contains (map (λ r. r.pk) a) pk ≡ true)

  -- What the maps need of the rows that are read.
  abbrev pub IsUsable : RawStopData lib.Time → Type 0
  IsUsable d =
      (every (λ t. contains (map (λ r. r.pk) d.all_routes) t.route_pk) d.stop_times ≡ true)
      × (every (λ m. contains (map (λ c. c.pk) d.service_map_config_ids) m.stop_pk) d.service_maps
          ≡ true)

  skipped_rows {ℓ} :
      {A : Type ℓ} (skip : Bool) (query : Queried (List A)) {a : List A}
      → query ≡ answer a
      → unless_skipped skip query ≡ reply (if skip then [] else a)
  skipped_rows true query e = refl
  skipped_rows false query e = rw e refl

  pub get_raw_stop_data-total :
      (ok : Consistent) (now : lib.Time) (stops : List (DbStop R)) (skip : Skip)
      → (d : RawStopData lib.Time) × (get_raw_stop_data q now stops skip ≡ reply d) × IsUsable d
  unfolding get_raw_stop_data
  get_raw_stop_data-total ok now stops skip =
      let stop_pks = map (λ s. s.pk) stops in
      let roots = root_pks stops in
      let (a1, e1) = ok.children stop_pks in
      let (a2, e2) = ok.descendents stop_pks in
      let below = union_pks (descendents_of_rows a2 []) [] in
      let (a3, e3) = ok.transfers below in
      let (a4, e4) = ok.alerts below now in
      let (a5, e5, known5) = ok.stop_times below in
      let times : List (StopTimeByStopRow lib.Time) = if skip.stop_times then [] else a5 in
      let (a6, e6) = ok.destinations (add_pks (map (λ t. t.trip_pk) times) []) in
      let (a7, a8, e7, e8, known7) = ok.service_maps roots in
      let maps : List StopServiceMapRow = if skip.service_maps then [] else a7 in
      let (a9, e9) = ok.headsign_rules below in
      let trips = if skip.stop_times then [] else a6 in
      let moves = if skip.transfers then [] else a3 in
      let (a10, e10) = ok.stops (
        add_pks (map (λ d. d.destination_pk) trips)
          (add_pks (parent_pks stops) (add_pks (map (λ t. t.to_stop_pk) moves) below))) in
      let routes_read =
        add_pks (map (λ t. t.route_pk) times) (add_pks (map (λ m. m.route_pk) maps) []) in
      let (a11, e11, known11) = ok.routes routes_read in
      let times_known : every (λ t. known_route t.route_pk) times ≡ true =
        elim (Bool-cases skip.stop_times) [ inl s ↦ rw s refl | inr s ↦ rw s known5 ] in
      (
        record {
          stop_pk_to_descendent_pks = descendents_of_rows a2 [];
          transfers = if skip.transfers then [] else a3;
          alerts = if skip.alerts then [] else a4;
          stop_times = times;
          trip_destinations = if skip.stop_times then [] else a6;
          service_maps = maps;
          service_map_config_ids = if skip.service_maps then [] else a8;
          headsign_rules = a9;
          all_stops = a10;
          all_routes = a11;
          stop_pk_to_child_pks = children_of_rows a1 [];
        },
        rw e1 (
            rw e2 (
              rw (skipped_rows skip.transfers (q.transfers_from_stops below) e3) (
                rw (skipped_rows skip.alerts (q.active_alerts_for_stops below now) e4) (
                  rw (skipped_rows skip.stop_times (q.stop_times_by_stops below) e5) (
                    rw (skipped_rows skip.stop_times (q.destinations_for_trips _) e6) (
                      rw (skipped_rows skip.service_maps (q.service_maps_for_stops roots) e7) (
                        rw (skipped_rows skip.service_maps (q.config_ids_for_stops roots) e8)
                          (rw e9 (rw e10 (rw e11 refl)))))))))),
        (
          every_of
              (λ t. known_route t.route_pk && contains (map (λ t. t.route_pk) times) t.route_pk) _
              times
              (λ t both.
                let (known, inside) = both_true (known_route t.route_pk) _ both in
                known11 t.route_pk (contains-add_pks_left _ _ t.route_pk inside) known)
              (every-contains (λ t. t.route_pk) (λ t. known_route t.route_pk) times times_known),
          elim (Bool-cases skip.service_maps) [ inl s ↦ rw s refl | inr s ↦ rw s known7 ],
        ),
      )
