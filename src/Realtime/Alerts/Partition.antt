-- ===== src/Realtime/Alerts/Partition.antt =====
-- The alerts that the loop of `updateAlerts` chooses.
use Prim.Native.String.{String}
use transiter.Base.{
  Bool, Bool-cases, List, Option, Option-cases, [], ap, arith, contains, contains-append, false,
  if◌then◌else◌, inl, inr, map, nat_keys, nodup, nodup-snoc, none, not, refl, some, string_keys,
  true, ◌&&◌, ◌++◌, ◌==◌, ◌||◌, ◌∙◌, ◌∷◌, ◌≡◌,
}
use transiter.Base.Int.{int_keys}
use transiter.Base.Maps.{Map, contains-keys-insert, keys, lookup}
use transiter.Realtime.Alerts.{
  Alert, AlertChanges, PkAndHash, no_alert_changes, sort_alert, sort_alerts,
}

module _ {Body : Type 0} (calculate_hash : Alert Body → String) (known : Map String PkAndHash) where
  -- The first alert with an ID.
  abbrev pub first_alert : String → List (Alert Body) → Option (Alert Body)
  first_alert k [] = none
  first_alert k (alert ∷ alerts) =
      let later = first_alert k alerts in if alert.id == k then some alert else later

  abbrev pub has_hash : Option PkAndHash → String → Bool
  has_hash none hash = false
  has_hash (some existing) hash = hash == existing.hash

  -- Whether the database has an alert as it is.
  abbrev pub is_stored : Alert Body → Bool
  is_stored alert = has_hash (lookup alert.id known) (calculate_hash alert)

  abbrev pub is_inserted : Option (Alert Body) → Bool
  is_inserted none = false
  is_inserted (some alert) = not (is_stored alert)

  abbrev pub ids : List (Alert Body) → List String
  ids alerts = map (λ (a : Alert Body). a.id) alerts

  ids-snoc :
      (alerts : List (Alert Body)) (alert : Alert Body)
      → ids (alerts ++ alert ∷ []) ≡ ids alerts ++ alert.id ∷ []
  ids-snoc [] alert = refl
  ids-snoc (a ∷ alerts) alert = ap (a.id ∷◌) (ids-snoc alerts alert)

  -- The IDs to insert are distinct, and among those that were seen.
  abbrev Seen : AlertChanges Body → Type 0
  Seen c =
      (nodup (ids c.alerts_to_insert) ≡ true)
      × ((k : String)
          → contains (ids c.alerts_to_insert) k ≡ true
          → contains (keys c.id_to_hash) k ≡ true)

  abbrev Result : String → List (Alert Body) → AlertChanges Body → AlertChanges Body → Type 0
  Result k alerts c c' = contains (ids c'.alerts_to_insert) k ≡ (
      contains (ids c.alerts_to_insert) k
      || (not (contains (keys c.id_to_hash) k) && is_inserted (first_alert k alerts)))

  -- What one pass of the loop inserts, and what it has seen.
  abbrev Step : String → Alert Body → AlertChanges Body → AlertChanges Body → Type 0
  Step k alert c c' =
      (contains (ids c'.alerts_to_insert) k ≡ (
        contains (ids c.alerts_to_insert) k
        || (alert.id == k
            && (not (contains (keys c.id_to_hash) alert.id) && not (is_stored alert)))))
      × (contains (keys c'.id_to_hash) k ≡ (alert.id == k || contains (keys c.id_to_hash) k))

  insert_alert-Step :
      (k : String) (alert : Alert Body) (xs : List (Alert Body))
      → contains (ids (xs ++ alert ∷ [])) k ≡ (contains (ids xs) k || alert.id == k)
  insert_alert-Step k alert xs =
      ap (λ l. contains l k) (ids-snoc xs alert)
      ∙ ground (arith, contains-append (ids xs) (alert.id ∷ []) k)

  sort_alert-Step :
      (k : String) (alert : Alert Body) (c : AlertChanges Body)
      → Step k alert c (sort_alert calculate_hash known alert c)
  unfolding sort_alert
  sort_alert-Step k alert c =
      let snoc = insert_alert-Step k alert c.alerts_to_insert in
      let more = contains-keys-insert alert.id k (calculate_hash alert) c.id_to_hash in
      elim (Bool-cases (contains (keys c.id_to_hash) alert.id)) [
        | inl seen ↦ (ground arith, ground (arith, string_keys.same_iff alert.id k))
        | inr new ↦ elim (Option-cases (lookup alert.id known)) [
          | inl absent ↦ (ground (arith, snoc), ground (arith, more))
          | inr (existing, present) ↦ elim (Bool-cases (calculate_hash alert == existing.hash)) [
            | inl same ↦ (ground arith, ground (arith, more))
            | inr other ↦ (ground (arith, snoc), ground (arith, more))
          ]
        ]
      ]

  insert-nodup :
      (alert : Alert Body) (c : AlertChanges Body)
      → Seen c
      → contains (keys c.id_to_hash) alert.id ≡ false
      → nodup (ids (c.alerts_to_insert ++ alert ∷ [])) ≡ true
  insert-nodup alert c h new =
      ap nodup (ids-snoc c.alerts_to_insert alert)
      ∙ ground (arith, nodup-snoc (ids c.alerts_to_insert) alert.id, h.0, h.1 alert.id)

  sort_alert-nodup :
      (alert : Alert Body) (c : AlertChanges Body)
      → Seen c
      → nodup (ids (sort_alert calculate_hash known alert c).alerts_to_insert) ≡ true
  unfolding sort_alert
  sort_alert-nodup alert c h = elim (Bool-cases (contains (keys c.id_to_hash) alert.id)) [
    | inl seen ↦ ground (arith, h.0)
    | inr new ↦
        let added = insert-nodup alert c h new in
        elim (Option-cases (lookup alert.id known)) [
          | inl absent ↦ ground (arith, added)
          | inr (existing, present) ↦ elim (Bool-cases (calculate_hash alert == existing.hash)) [
            | inl same ↦ ground (arith, h.0)
            | inr other ↦ ground (arith, added)
          ]
        ]
  ]

  sort_alert-Seen :
      (alert : Alert Body) (c : AlertChanges Body)
      → Seen c
      → Seen (sort_alert calculate_hash known alert c)
  sort_alert-Seen alert c h = (
    sort_alert-nodup alert c h,
    λ k has. let step = sort_alert-Step k alert c in ground (arith, step.0, step.1, h.1 k),
  )

  sort_alerts-Seen :
      (alerts : List (Alert Body)) (c : AlertChanges Body)
      → Seen c
      → Seen (sort_alerts calculate_hash known alerts c)
  unfolding sort_alerts
  sort_alerts-Seen [] c h = h
  sort_alerts-Seen (alert ∷ alerts) c h =
      sort_alerts-Seen alerts (sort_alert calculate_hash known alert c) (sort_alert-Seen alert c h)

  sort_alerts-Result :
      (k : String) (alerts : List (Alert Body)) (c : AlertChanges Body)
      → Result k alerts c (sort_alerts calculate_hash known alerts c)
  unfolding sort_alerts
  sort_alerts-Result k [] c = ground arith
  sort_alerts-Result k (alert ∷ alerts) c =
      let later = sort_alerts-Result k alerts (sort_alert calculate_hash known alert c) in
      let step = sort_alert-Step k alert c in
      ground (arith, later, step.0, step.1, string_keys.same_iff alert.id k)

  -- The loop over the alerts of a feed inserts each ID at most once, and exactly the IDs of the feed
  -- whose first alert the database does not have as it is.
  pub sort_alerts_lem :
      (alerts : List (Alert Body))
      → (nodup (
            ids
              (sort_alerts calculate_hash known alerts
                (no_alert_changes calculate_hash)).alerts_to_insert)
          ≡ true)
        × ((k : String)
            → contains
                (ids
                  (sort_alerts calculate_hash known alerts
                    (no_alert_changes calculate_hash)).alerts_to_insert)
                k
              ≡ is_inserted (first_alert k alerts))
  unfolding no_alert_changes
  sort_alerts_lem alerts = (
    (sort_alerts-Seen alerts (no_alert_changes calculate_hash) (refl, λ k h. absurd (cc h))).0,
    λ k. ground (arith, sort_alerts-Result k alerts (no_alert_changes calculate_hash)),
  )
