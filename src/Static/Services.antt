-- ===== src/Static/Services.antt =====
-- `updateServices` and `updateShapes` of internal/update/static/static.go: the rows of a feed are
-- deleted and inserted again. A query that fails gives `none`.
use Prim.Native.String.{String}
use transiter.Base.{
  Bool, List, Option, Option-cases, [], arith, contains, inl, inr, map, nat_keys, none, refl, some,
  string_keys, ℕ, ◌||◌, ◌∷◌, ◌≡◌,
}
use transiter.Base.Int.{int_keys}
use transiter.Base.Maps.{Map, contains-keys-insert, insert, keys}

-- gtfs.Service, with the type of its dates.
pub record FeedService (Date : Type 0) : Type 0 where
  pub id : String
  pub start_date : Date
  pub end_date : Date
  pub monday : Bool
  pub tuesday : Bool
  pub wednesday : Bool
  pub thursday : Bool
  pub friday : Bool
  pub saturday : Bool
  pub sunday : Bool
  pub added_dates : List Date
  pub removed_dates : List Date

-- gtfs.Shape and the bytes that protojson writes for it, none if it fails.
pub record Shape : Type 0 where
  pub id : String
  pub marshalled : Option String

-- The loop that the two functions share: each row is written, and its primary key noted.
module _ {A Database : Type 0} (id_of : A → String)
    (write_one : A → Database → Option (ℕ × Database)) where
  unfoldable pub insert_rows : Map String ℕ → List A → Database → Option (Map String ℕ × Database)
  insert_rows pks [] d = some (pks, d)
  insert_rows pks (row ∷ rows) d = elim (write_one row d) [
    | none ↦ none
    | some (pk, d') ↦ insert_rows (insert (id_of row) pk pks) rows d'
  ]

  -- The primary keys of the rows that were there before, and of those that are written.
  insert_rows-keys :
      (pks new : Map String ℕ) (rows : List A) (d d' : Database) (k : String)
      → insert_rows pks rows d ≡ some (new, d')
      → contains (keys new) k ≡ (contains (map id_of rows) k || contains (keys pks) k)
  unfolding insert_rows
  insert_rows-keys pks new [] d d' k e = let same : pks ≡ new = cc e in rw same refl
  insert_rows-keys pks new (row ∷ rows) d d' k e = elim (Option-cases (write_one row d)) [
    | inl fails ↦ absurd (cc (rw (fails, insert_rows) at e))
    | inr ((pk, after), works) ↦ ground (
      arith,
      insert_rows-keys (insert (id_of row) pk pks) new rows after d' k
          (rw (works, insert_rows) at e),
      contains-keys-insert (id_of row) k pk pks,
    )
  ]

-- The queries on services.
pub record ServiceQueries (Date : Type 0) (Database : Type 0) : Type 0 where
  pub delete_scheduled_services : ℕ → ℕ → List String → Database → Option Database
  pub insert_scheduled_service : ℕ → ℕ → FeedService Date → Database → Option (ℕ × Database)
  pub insert_addition : ℕ → Date → Database → Option Database
  pub insert_removal : ℕ → Date → Database → Option Database

-- A query for each date of a list.
unfoldable pub insert_dates :
    {Date Database : Type 0}
    → (Date → Database → Option Database)
    → List Date
    → Database
    → Option Database
insert_dates insert_date [] d = some d
insert_dates insert_date (date ∷ dates) d = elim (insert_date date d) [
  | none ↦ none
  | some d' ↦ insert_dates insert_date dates d'
]

module _ {Date Database : Type 0} (q : ServiceQueries Date Database) (system_pk feed_pk : ℕ) where
  abbrev pub with_pk : ℕ → Option Database → Option (ℕ × Database)
  with_pk pk none = none
  with_pk pk (some d) = some (pk, d)

  abbrev pub removals_of : ℕ → FeedService Date → Option Database → Option Database
  removals_of pk service none = none
  removals_of pk service (some d) = insert_dates (q.insert_removal pk) service.removed_dates d

  -- The service, then its added dates, then its removed ones.
  unfoldable pub write_service : FeedService Date → Database → Option (ℕ × Database)
  unfolding insert_dates
  write_service service d = elim (q.insert_scheduled_service system_pk feed_pk service d) [
    | none ↦ none
    | some (pk, d') ↦
        with_pk pk
          (removals_of pk service (insert_dates (q.insert_addition pk) service.added_dates d'))
  ]

  unfoldable pub update_services :
      List (FeedService Date) → Database → Option (Map String ℕ × Database)
  unfolding insert_rows write_service
  update_services services d =
      elim (q.delete_scheduled_services feed_pk system_pk
        (map (λ (s : FeedService Date). s.id) services) d) [
          | none ↦ none
          | some d' ↦ insert_rows (λ (s : FeedService Date). s.id) write_service [] services d'
        ]

  -- An update of services that succeeds returns a primary key for exactly the services of the feed.
  update_services-keys :
      (services : List (FeedService Date)) (d d' : Database) (new : Map String ℕ) (k : String)
      → update_services services d ≡ some (new, d')
      → contains (keys new) k ≡ contains (map (λ (s : FeedService Date). s.id) services) k
  unfolding update_services
  update_services-keys services d d' new k e =
      let ids = map (λ (s : FeedService Date). s.id) services in
      elim (Option-cases (q.delete_scheduled_services feed_pk system_pk ids d)) [
        | inl fails ↦ absurd (cc (rw (fails, update_services) at e))
        | inr (after, works) ↦ ground (
          arith,
          insert_rows-keys (λ (s : FeedService Date). s.id) write_service [] new services after d' k
              (rw (works, update_services) at e),
        )
      ]

-- The queries on shapes.
pub record ShapeQueries (Database : Type 0) : Type 0 where
  pub delete_shapes : ℕ → ℕ → List String → Database → Option Database
  pub insert_shape : ℕ → ℕ → String → String → Database → Option (ℕ × Database)

module _ {Database : Type 0} (q : ShapeQueries Database) (system_pk feed_pk : ℕ) where
  unfoldable pub write_shape : Shape → Database → Option (ℕ × Database)
  write_shape shape d = elim shape.marshalled [
    | none ↦ none
    | some bytes ↦ q.insert_shape system_pk feed_pk shape.id bytes d
  ]

  unfoldable pub update_shapes : List Shape → Database → Option (Map String ℕ × Database)
  unfolding insert_rows write_shape
  update_shapes shapes d =
      elim (q.delete_shapes feed_pk system_pk (map (λ (s : Shape). s.id) shapes) d) [
        | none ↦ none
        | some d' ↦ insert_rows (λ (s : Shape). s.id) write_shape [] shapes d'
      ]
