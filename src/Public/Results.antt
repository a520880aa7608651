-- ===== src/Public/Results.antt =====
-- What a handler of internal/public/endpoints gives: internal/public/endpoints/context.go and
-- internal/public/errors/errors.go.
use Prim.Native.String.{String, ◌++◌ as str_append}
use transiter.Base.{nat_keys, string_keys, ℕ}
use transiter.Base.Int.{int_keys}

-- An error of a query.
pub data QueryError : Type 0 where
  no_rows : QueryError
  query_failure : String → QueryError

-- publicErr, by its status code, and an error that is passed on as it is.
pub data PublicError : Type 0 where
  not_found : String → PublicError
  invalid_argument : String → PublicError
  unconverted : QueryError → PublicError

pub data Queried {ℓ} (A : Type ℓ) : Type ℓ where
  answer : A → Queried A
  query_error : QueryError → Queried A

-- A handler replies, returns an error or panics.
pub data Response {ℓ} (A : Type ℓ) : Type ℓ where
  reply : A → Response A
  failed : PublicError → Response A
  panics : Response A

-- `if err != nil { return nil, err }`
abbrev pub and_then {ℓ κ} : {A : Type ℓ} {B : Type κ} → Response A → (A → Response B) → Response B
and_then (reply a) f = f a
and_then (failed e) f = failed e
and_then panics f = panics

abbrev pub of_query {ℓ} : {A : Type ℓ} → Queried A → Response A
of_query (answer a) = reply a
of_query (query_error e) = failed (unconverted e)

unfoldable pub no_rows_to_not_found : QueryError → String → PublicError
no_rows_to_not_found no_rows text = not_found (str_append text " does not exist")
no_rows_to_not_found (query_failure e) text = unconverted (query_failure e)

unfoldable pub found {ℓ} : {A : Type ℓ} → Queried A → String → Response A
unfolding no_rows_to_not_found
found (answer a) text = reply a
found (query_error e) text = failed (no_rows_to_not_found e text)

-- db.System
pub record DbSystem : Type 0 where
  pub pk : ℕ
  pub id : String
  pub name : String
  pub status : String

module _ (quoted : String → String) (query_system : String → Queried DbSystem) where
  -- `fmt.Sprintf("system %q", id)`
  abbrev pub system_text : String → String
  system_text id = str_append "system " (quoted id)

  unfoldable pub get_system : String → Response DbSystem
  unfolding found
  get_system id = found (query_system id) (system_text id)

  -- getFeed, getRoute, getStop and getTransfer: the entity of a system that a query finds.
  unfoldable pub get_in_system {ℓ} :
      {A : Type ℓ}
      → String
      → (DbSystem → String → Queried A)
      → String
      → String
      → Response (DbSystem × A)
  unfolding get_system found
  get_in_system kind query system_id id = and_then (get_system system_id) (λ system.
      and_then
        (found (query system id) (
          str_append kind
            (str_append " " (str_append (quoted id) (str_append " in " (system_text system.id))))))
        (λ entity. reply (system, entity)))
