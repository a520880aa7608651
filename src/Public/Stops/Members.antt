-- ===== src/Public/Stops/Members.antt =====
-- The rows behind an item of a reply: those of the stops below it, as a membership.
use mathlib.Core.List.Memᴰ
use Prim.Native.String.{String}
use transiter.Base.{
  Bool, Bool-cases, List, Memᴰ, [], ap, arith, contains, inl, inr, nat_keys, refl, string_keys, sym,
  true, ℕ, ◌++◌, ◌==◌, ◌↔◌, ◌∙◌, ◌∷◌, ◌≡◌, ◌⊎◌,
}
use transiter.Base.Int.{int_keys}
use transiter.Base.Maps.{Map, lookup}
use transiter.Public.Reference.{
  AlertReference, Generator, PublicLibrary, StopReference, alert_reference,
}
use transiter.Public.Stops.{RawStopData}
use transiter.Public.Stops.Lifting.{
  collect_items-group_rows, contains-descendents_of_rows, is_pair, items_at, items_of_each,
  list_at-lift_to_ancestors, nodup-descendents_of_rows,
}
use transiter.Public.Stops.RawData.{descendents_of_rows, list_at}
use transiter.Public.Stops.Response.{
  ApiTransfer, api_transfer, group_rows, lift_to_ancestors, stop_pk_to_api_alerts,
  stop_pk_to_api_transfers,
}

Memᴰ-append {ℓ} :
    {A : Type ℓ} (x : A) (xs ys : List A) → Memᴰ x (xs ++ ys) ↔ (Memᴰ x xs ⊎ Memᴰ x ys)
Memᴰ-append x [] ys = (inr, λ s. elim s [ inl m ↦ absurd (Memᴰ.not-nil m) | inr m ↦ m ])
Memᴰ-append x (z ∷ xs) ys =
    let rec = Memᴰ-append x xs ys in
    (
      λ m. elim (Memᴰ.cases_cons m) [
        | inl e ↦ inl (Memᴰ.head e)
        | inr later ↦ elim (rec.0 later) [ inl a ↦ inl (Memᴰ.tail a) | inr b ↦ inr b ]
      ],
      λ s. elim s [
        | inl m ↦ elim (Memᴰ.cases_cons m) [
          | inl e ↦ Memᴰ.head e
          | inr later ↦ Memᴰ.tail (rec.1 (inl later))
        ]
        | inr m ↦ Memᴰ.tail (rec.1 (inr m))
      ],
    )

module _ {ℓ κ} {A : Type ℓ} {T : Type κ} (key_of : A → ℕ) (item_of : A → T) where
  -- An item comes from a row of one of the stops.
  abbrev pub ComesFrom : (ℕ → Bool) → List A → T → Type (ℓ ⊔ κ)
  ComesFrom of_stops rs x = (r : A) × Memᴰ r rs × (of_stops (key_of r) ≡ true) × (x ≡ item_of r)

  items_at-ComesFrom :
      (pk : ℕ) (rs : List A) (x : T)
      → Memᴰ x (items_at key_of item_of pk rs) ↔ ComesFrom (λ k. k == pk) rs x
  items_at-ComesFrom pk [] x =
      (λ m. absurd (Memᴰ.not-nil m), λ (r, m, _, _). absurd (Memᴰ.not-nil m))
  items_at-ComesFrom pk (r ∷ rs) x =
      let rec = items_at-ComesFrom pk rs x in
      elim (Bool-cases (key_of r == pk)) [
        | inl here ↦ rw here (
          λ m. elim (Memᴰ.cases_cons m) [
            | inl e ↦ (r, Memᴰ.head refl, here, e)
            | inr later ↦
                let (s, inside, key, item) = rec.0 later in (s, Memᴰ.tail inside, key, item)
          ],
          λ (s, inside, key, item). elim (Memᴰ.cases_cons inside) [
            | inl e ↦ Memᴰ.head (item ∙ ap item_of e)
            | inr later ↦ Memᴰ.tail (rec.1 (s, later, key, item))
          ],
        )
        | inr apart ↦ rw apart (
          λ m. let (s, inside, key, item) = rec.0 m in (s, Memᴰ.tail inside, key, item),
          λ (s, inside, key, item). elim (Memᴰ.cases_cons inside) [
            | inl e ↦ absurd (ground (arith, key, apart, ap key_of e))
            | inr later ↦ rec.1 (s, later, key, item)
          ],
        )
      ]

  items_of_each-ComesFrom :
      (pks : List ℕ) (rs : List A) (x : T)
      → Memᴰ x (items_of_each key_of item_of pks rs) ↔ ComesFrom (contains pks) rs x
  items_of_each-ComesFrom [] rs x =
      (λ m. absurd (Memᴰ.not-nil m), λ (r, m, key, _). absurd (ground (arith, key)))
  items_of_each-ComesFrom (pk ∷ pks) rs x =
      let rec = items_of_each-ComesFrom pks rs x in
      let split =
        Memᴰ-append x (items_at key_of item_of pk rs) (items_of_each key_of item_of pks rs) in
      (
        λ m. elim (split.0 m) [
          | inl here ↦
              let (r, inside, key, item) = (items_at-ComesFrom pk rs x).0 here in
              (
                r,
                inside,
                ground
                    (arith, key, nat_keys.same_iff (key_of r) pk, nat_keys.same_iff pk (key_of r)),
                item,
              )
          | inr later ↦
              let (r, inside, key, item) = rec.0 later in (r, inside, ground (arith, key), item)
        ],
        λ (r, inside, key, item). elim (Bool-cases (pk == key_of r)) [
          | inl here ↦ split.1 (
              inl (
                (items_at-ComesFrom pk rs x).1 (
                  r,
                  inside,
                  ground (
                    arith,
                    here,
                    nat_keys.same_iff (key_of r) pk,
                    nat_keys.same_iff pk (key_of r),
                  ),
                  item,
                )))
          | inr apart ↦ split.1 (inr (rec.1 (r, inside, ground (arith, key, apart), item)))
        ],
      )

  -- What the reply lists at a stop: the items of the rows of the stops below it.
  pub lift_to_ancestors-ComesFrom :
      (pairs : List (ℕ × ℕ)) (rs : List A) (pk : ℕ) (x : T)
      → Memᴰ x (
          list_at pk
            (lift_to_ancestors (descendents_of_rows pairs []) (group_rows key_of item_of rs [])))
        ↔ ComesFrom (λ k. is_pair pk k pairs) rs x
  unfolding lookup
  lift_to_ancestors-ComesFrom pairs rs pk x =
      let below = descendents_of_rows pairs [] in
      let listed =
        list_at-lift_to_ancestors below (group_rows key_of item_of rs []) pk
          (nodup-descendents_of_rows pairs [] refl)
        ∙ collect_items-group_rows key_of item_of (list_at pk below) rs in
      let each = items_of_each-ComesFrom (list_at pk below) rs x in
      let same : (k : ℕ) → contains (list_at pk below) k ≡ is_pair pk k pairs =
        λ k. ground (arith, contains-descendents_of_rows pairs [] pk k) in
      rw listed (
        λ m.
            let (r, inside, key, item) = each.0 m in (r, inside, sym (same (key_of r)) ∙ key, item),
        λ (r, inside, key, item). each.1 (r, inside, same (key_of r) ∙ key, item),
      )

module _ (lib : PublicLibrary) (g : Generator) (system_id : String) (d : RawStopData lib.Time)
    (pairs : List (ℕ × ℕ)) where
  -- The alerts and transfers that the reply lists at a stop are exactly those of the rows whose
  -- stop the database gives as one of its descendants.
  pub api_alerts-descendents :
      (previews : Map ℕ StopReference) (pk : ℕ) (alert : AlertReference) (transfer : ApiTransfer)
      (read : d.stop_pk_to_descendent_pks ≡ descendents_of_rows pairs [])
      → (Memᴰ alert (list_at pk (stop_pk_to_api_alerts lib g system_id d))
          ↔ ComesFrom
              (λ a. a.stop_pk)
              (λ a. alert_reference lib g a.id system_id a.cause a.effect)
              (λ k. is_pair pk k pairs)
              d.alerts
              alert)
        × (Memᴰ transfer (list_at pk (stop_pk_to_api_transfers lib g system_id d previews))
            ↔ ComesFrom
                (λ t. t.from_stop_pk)
                (api_transfer lib g system_id previews)
                (λ k. is_pair pk k pairs)
                d.transfers
                transfer)
  unfolding stop_pk_to_api_alerts stop_pk_to_api_transfers
  api_alerts-descendents previews pk alert transfer read = rw read (
    lift_to_ancestors-ComesFrom _ _ pairs d.alerts pk alert,
    lift_to_ancestors-ComesFrom _ _ pairs d.transfers pk transfer,
  )
