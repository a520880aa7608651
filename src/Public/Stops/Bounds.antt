-- ===== src/Public/Stops/Bounds.antt =====
-- How many stops a reply of ListStops of internal/public/endpoints/stop.go has, and the limit at
-- which it panics.
use Prim.Native.String.{String}
use transiter.Base.{
  Bool-cases, List, Option, Option-cases, [], ap, arith, false, inl, inr, length, map, nat_keys,
  none, not, refl, some, string_keys, suc, sym, true, zero, ℕ, ◌==◌, ◌||◌, ◌∙◌, ◌∷◌, ◌≡◌,
}
use transiter.Base.Int.{int_keys, ltb_ℤ, negsuc, pos, ℤ}
use transiter.Public.Pages.{base_limit, cut_page, next_int32, page_limit, split_last}
use transiter.Public.Reference.{Generator, PublicLibrary}
use transiter.Public.Results.{
  DbSystem, Queried, Response, and_then, answer, failed, found, get_system, of_query, panics,
  query_error, reply,
}
use transiter.Public.Stops.{DbStop, ListStopsParams, ListStopsRequest, Skip, StopQueries}
use transiter.Public.Stops.Build.{build_stops_response, stop_pk_to_api_service_maps}
use transiter.Public.Stops.Handlers.{
  check, distance_arguments, first_id_of, invalid_filters, is_nonempty, list_stops_reply,
  read_stops,
}
use transiter.Public.Stops.Paging.{fits, ValidFilters}
use transiter.Public.Stops.RawData.{get_raw_stop_data}
use transiter.Public.Stops.Response.{ApiStop, stop_pk_to_api_stop_times}

and_then-reply {ℓ κ} :
    {A : Type ℓ} {B : Type κ} (r : Response A) (f : A → Response B) {b : B}
    → and_then r f ≡ reply b
    → (a : A) × (r ≡ reply a) × (f a ≡ reply b)
and_then-reply (reply a) f e = (a, refl, e)
and_then-reply (failed x) f e = absurd (cc e)
and_then-reply panics f e = absurd (cc e)

reply_injective {ℓ} : {A : Type ℓ} {a b : A} → reply a ≡ reply b → a ≡ b
reply_injective e = cc e

of_query-reply {ℓ} : {A : Type ℓ} (r : Queried A) {a : A} → of_query r ≡ reply a → r ≡ answer a
of_query-reply (answer b) e = cc e
of_query-reply (query_error x) e = absurd (cc e)

length-map {ℓ κ} :
    {A : Type ℓ} {B : Type κ} (f : A → B) (xs : List A) → length (map f xs) ≡ length xs
length-map f [] = refl
length-map f (x ∷ xs) = ap suc (length-map f xs)

split_last-empty {ℓ} : {A : Type ℓ} (xs : List A) → split_last xs ≡ none → length xs ≡ 0
unfolding split_last
split_last-empty [] e = refl
split_last-empty (x ∷ xs) e = elim (Option-cases (split_last xs)) [
  | inl nothing ↦ absurd (cc (rw (nothing, split_last) at e))
  | inr (p, found) ↦ absurd (cc (rw (found, split_last) at e))
]

length-split_last {ℓ} :
    {A : Type ℓ} (xs : List A) {p : List A × A}
    → split_last xs ≡ some p
    → length xs ≡ suc (length p.0)
unfolding split_last
length-split_last [] e = absurd (cc e)
length-split_last (x ∷ xs) {p} e = elim (Option-cases (split_last xs)) [
  | inl nothing ↦
      let same : some ([], x) ≡ some p = rw (nothing, split_last) at e in
      ground (arith, same, split_last-empty xs nothing)
  | inr (s, found) ↦
      let same : some (x ∷ s.0, s.1) ≡ some p = rw (found, split_last) at e in
      ground (arith, same, length-split_last xs found)
]

fits-fewer {ℓ} :
    {A : Type ℓ} (xs : List A) (n : ℤ)
    → (n == pos 2_147_483_647) ≡ false
    → fits xs n ≡ true
    → fits xs (next_int32 n) ≡ true
unfolding next_int32
fits-fewer xs (pos k) bounded h = ground (arith, bounded, h)
fits-fewer xs (negsuc k) bounded h = ground (arith, bounded, h)

one_less :
    (n : ℤ) (k : ℕ)
    → (n == pos 2_147_483_647) ≡ false
    → (pos (suc k) == next_int32 n) ≡ true
    → ltb_ℤ n (pos k) ≡ false
unfolding next_int32
one_less (pos m) k bounded h = ground (arith, bounded, h)
one_less (negsuc zero) k bounded h = ground (arith, bounded, h)
one_less (negsuc (suc m)) k bounded h = ground (arith, bounded, h)

not_more :
    (n : ℤ) (k : ℕ)
    → (n == pos 2_147_483_647) ≡ false
    → (pos k == next_int32 n) ≡ false
    → not (ltb_ℤ (next_int32 n) (pos k)) ≡ true
    → ltb_ℤ n (pos k) ≡ false
unfolding next_int32
not_more (pos m) k bounded h le = ground (arith, bounded, h, le)
not_more (negsuc zero) k bounded h le = ground (arith, bounded, h, le)
not_more (negsuc (suc m)) k bounded h le = ground (arith, bounded, h, le)

-- What is left of a page when the query gives at most one more than the limit.
cut_page-fits {ℓ} :
    {A : Type ℓ} (id_of : A → String) (n : ℤ) (xs : List A) {p : List A × Option String}
    → (n == pos 2_147_483_647) ≡ false
    → fits xs (next_int32 n) ≡ true
    → cut_page id_of (next_int32 n) xs ≡ reply p
    → fits p.0 n ≡ true
unfolding cut_page
cut_page-fits id_of n xs {p} bounded h e = elim (Bool-cases (pos (length xs) == next_int32 n)) [
  | inl full ↦ elim (Option-cases (split_last xs)) [
    | inl nothing ↦ absurd (cc (rw (full, nothing, cut_page) at e))
    | inr (s, found) ↦
        let same : reply (s.0, some (id_of s.1)) ≡ reply p = rw (full, found, cut_page) at e in
        let front : s.0 ≡ p.0 = ground (arith, same) in
        rw (sym front)
          (rw (one_less n (length s.0) bounded (rw (length-split_last xs found) at full)) refl)
  ]
  | inr fewer ↦
      let same : reply (xs, none) ≡ reply p = rw (fewer, cut_page) at e in
      let front : xs ≡ p.0 = ground (arith, same) in
      rw (sym front) (rw (not_more n (length xs) bounded fewer h) refl)
]

-- The limit of a request, if any.
unfoldable pub requested_limit : ℤ → Option ℤ → ℤ
unfolding base_limit
requested_limit max_entities none = base_limit max_entities
requested_limit max_entities (some limit) = limit

within_limits :
    (max_entities : ℤ) (limit : Option ℤ) (k : ℕ)
    → not (ltb_ℤ (page_limit max_entities limit) (pos k)) ≡ true
    → (not (ltb_ℤ (base_limit max_entities) (pos k)) ≡ true)
      × (not (ltb_ℤ (requested_limit max_entities limit) (pos k)) ≡ true)
unfolding page_limit requested_limit
within_limits max_entities none k h = (h, h)
within_limits max_entities (some limit) k h =
    elim (Bool-cases (ltb_ℤ limit (base_limit max_entities))) [
      | inl less ↦ ground (arith, less, rw (less, page_limit) at h)
      | inr more ↦ ground (arith, more, rw (more, page_limit) at h)
    ]

page_limit-minus_one : (max_entities : ℤ) → page_limit max_entities (some (negsuc 0)) ≡ negsuc 0
unfolding page_limit base_limit
page_limit-minus_one (pos k) = ground arith
page_limit-minus_one (negsuc k) = ground arith

module _ (lib : PublicLibrary) (g : Generator) {R : Type 0} (q : StopQueries lib R)
    (now : lib.Time) where
  length-build_stops_response :
      (system_id : String) (stops : List (DbStop R)) (skip : Skip) {a : List (ApiStop R)}
      → build_stops_response lib g q now system_id stops skip ≡ reply a
      → length a ≡ length stops
  unfolding build_stops_response
  length-build_stops_response system_id stops skip e =
      let (d, _, e1) = and_then-reply (get_raw_stop_data q now stops skip) _ e in
      let (_, _, e2) = and_then-reply (stop_pk_to_api_service_maps d _) _ e1 in
      let (_, _, e3) = and_then-reply (stop_pk_to_api_stop_times lib g system_id d _ _) _ e2 in
      ap length (sym (reply_injective e3)) ∙ length-map _ stops

  -- A query that gives at most the number of rows that it is asked for.
  abbrev pub RespectsLimit : {P : Type 0} → (P → Queried (List (DbStop R))) → (P → ℤ) → Type 0
  RespectsLimit {P} query limit_of =
      (p : P) (stops : List (DbStop R)) → query p ≡ answer stops → fits stops (limit_of p) ≡ true

  read_stops-fits :
      (req : ListStopsRequest lib R) (system : DbSystem) (n : ℤ) (first : String)
      {stops : List (DbStop R)}
      → RespectsLimit q.list_stops (λ p. p.num_stops)
      → RespectsLimit q.list_stops_geographic (λ p. p.max_results)
      → (n == pos 2_147_483_647) ≡ false
      → read_stops lib q req system n first ≡ reply stops
      → fits stops (next_int32 n) ≡ true
  unfolding read_stops
  read_stops-fits req system n first {stops} by_id by_distance bounded e =
      elim (Bool-cases req.by_distance) [
        | inl geographic ↦
            let (_, _, read) =
              and_then-reply
                (distance_arguments lib req.latitude req.longitude req.max_distance first) _
                (rw geographic at e) in
            fits-fewer stops n bounded (by_distance _ stops (of_query-reply _ read))
        | inr listed ↦ by_id _ stops (of_query-reply _ (rw listed at e))
      ]

  pub list_stops-fits :
      (req : ListStopsRequest lib R) (max_entities : ℤ)
      (by_id : RespectsLimit q.list_stops (λ p. p.num_stops))
      (by_distance : RespectsLimit q.list_stops_geographic (λ p. p.max_results))
      (bounded : (page_limit max_entities req.limit == pos 2_147_483_647) ≡ false)
      {p : List (ApiStop R) × Option String}
      (replied : list_stops_reply lib g q now max_entities req ≡ reply p)
      → (fits p.0 (base_limit max_entities) ≡ true)
        × (fits p.0 (requested_limit max_entities req.limit) ≡ true)
  unfolding list_stops_reply check
  list_stops-fits req max_entities by_id by_distance bounded {p} replied =
      let (system, _, e1) =
        and_then-reply (get_system lib.quoted q.query_system req.system_id) _ replied in
      elim (Option-cases (
        invalid_filters (req.only_return_specified_ids || req.filter_by_id) (is_nonempty req.ids)
          req.filter_by_type (is_nonempty req.types))) [
            | inr (text, invalid) ↦ absurd (cc (rw (invalid, check) at e1))
            | inl valid ↦
                let n = page_limit max_entities req.limit in
                let (stops, read, e2) =
                  and_then-reply (read_stops lib q req system n (first_id_of req.first_id)) _
                    (rw (valid, check) at e1) in
                let (page, cut, e3) =
                  and_then-reply (cut_page (λ s. s.id) (next_int32 n) stops) _ e2 in
                let (a, built, e4) =
                  and_then-reply (build_stops_response lib g q now req.system_id page.0 req.skip) _
                    e3 in
                let shown : a ≡ p.0 = ap (λ r. r.0) (reply_injective e4) in
                let few : fits page.0 n ≡ true =
                  cut_page-fits (λ s. s.id) n stops bounded
                    (read_stops-fits req system n (first_id_of req.first_id) by_id by_distance
                      bounded read)
                    cut in
                within_limits max_entities req.limit (length p.0) (
                  rw (sym shown)
                    (rw (length-build_stops_response req.system_id page.0 req.skip built) few))
          ]

  -- A search by ID with the limit -1 panics in a known system, whatever the operator's maximum.
  pub list_stops-minus_one :
      (req : ListStopsRequest lib R) (max_entities : ℤ) (system : DbSystem)
      (by_id : req.by_distance ≡ false) (limit : req.limit ≡ some (negsuc 0))
      (valid : ValidFilters req) (known : q.query_system req.system_id ≡ answer system)
      (limit_zero : (p : ListStopsParams) → p.num_stops ≡ pos 0 → q.list_stops p ≡ answer [])
      → list_stops_reply lib g q now max_entities req ≡ panics
  unfolding list_stops_reply get_system found check next_int32 cut_page split_last read_stops
  list_stops-minus_one req max_entities system by_id limit valid known limit_zero =
      let read : read_stops lib q req system (negsuc 0) (first_id_of req.first_id) ≡ reply [] =
        rw by_id (ap of_query (limit_zero _ refl)) in
      rw known (rw valid (rw limit (rw (page_limit-minus_one max_entities) (rw read refl))))
