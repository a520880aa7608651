-- ===== src/Public/Reference.antt =====
-- The references and resources of internal/public/reference/reference.go. The generator's cache of
-- system references is left out: an entry is a function of its key.
use Prim.Native.String.{String, ◌++◌ as str_append}
use transiter.Base.{
  Bool, List, Option, [], if◌then◌else◌, nat_keys, none, some, string_keys, ℕ, ◌∷◌,
}
use transiter.Base.Int.{int_keys, ℤ}
use transiter.Public.Results.{Response, panics, reply}

-- What the generator and the handlers take from Go's packages, from the protocol buffers and from
-- the database's types.
pub record PublicLibrary : Type 1 where
  pub Float : Type 0
  pub Geography : Type 0
  pub Time : Type 0
  -- time.Time.Unix
  pub unix : Time → ℤ
  -- path.Join
  pub path_join : List String → String
  -- `%q` of fmt.Sprintf
  pub quoted : String → String
  -- convert.Gps of a longitude and a latitude that are present
  pub point : Float → Float → Geography
  pub no_point : Geography
  -- The numbers of the names in api.Alert_Cause_value and the like, 0 for other names.
  pub alert_cause : String → ℕ
  pub alert_effect : String → ℕ
  pub transfer_type : String → ℕ
  pub stop_type : String → ℕ
  -- api.Stop_Type.String
  pub stop_type_name : ℕ → String

-- api.Resource
pub record Resource : Type 0 where
  pub path : String
  pub url : Option String

pub record SystemReference : Type 0 where
  pub id : String
  pub resource : Resource

pub record AlertReference : Type 0 where
  pub id : String
  pub system : SystemReference
  pub cause : ℕ
  pub effect : ℕ
  pub resource : Resource

pub record RouteReference : Type 0 where
  pub id : String
  pub system : SystemReference
  pub color : String
  pub resource : Resource

pub record StopReference : Type 0 where
  pub id : String
  pub system : SystemReference
  pub name : Option String
  pub resource : Resource

pub record VehicleReference : Type 0 where
  pub id : String
  pub resource : Resource

pub record TripReference : Type 0 where
  pub id : String
  pub route : RouteReference
  pub destination : Option StopReference
  pub vehicle : Option VehicleReference
  pub direction_id : Bool
  pub resource : Resource

-- Generator
pub record Generator : Type 0 where
  pub url_enabled : Bool
  pub base_url : String

module _ (lib : PublicLibrary) (g : Generator) where
  unfoldable pub generate_url : List String → Option String
  generate_url elem =
      if g.url_enabled
      then some (str_append g.base_url (str_append "/" (lib.path_join elem)))
      else none

  unfoldable pub generate_resource : List String → Resource
  unfolding generate_url
  generate_resource elem = record { path = lib.path_join elem; url = generate_url elem }

  unfoldable pub system_reference : String → SystemReference
  unfolding generate_resource
  system_reference id = record { id = id; resource = generate_resource ("systems" ∷ id ∷ []) }

  unfoldable pub alert_reference : String → String → String → String → AlertReference
  unfolding system_reference generate_resource
  alert_reference id system_id cause effect = record {
    id = id;
    system = system_reference system_id;
    cause = lib.alert_cause cause;
    effect = lib.alert_effect effect;
    resource = generate_resource ("systems" ∷ system_id ∷ "alerts" ∷ id ∷ []);
  }

  unfoldable pub route_reference : String → String → String → RouteReference
  unfolding system_reference generate_resource
  route_reference id system_id color = record {
    id = id;
    system = system_reference system_id;
    color = color;
    resource = generate_resource ("systems" ∷ system_id ∷ "routes" ∷ id ∷ []);
  }

  unfoldable pub stop_reference : String → String → Option String → StopReference
  unfolding system_reference generate_resource
  stop_reference id system_id name = record {
    id = id;
    system = system_reference system_id;
    name = name;
    resource = generate_resource ("systems" ∷ system_id ∷ "stops" ∷ id ∷ []);
  }

  unfoldable pub vehicle_reference : String → String → VehicleReference
  unfolding generate_resource
  vehicle_reference id system_id = record {
    id = id;
    resource = generate_resource ("systems" ∷ system_id ∷ "vehicles" ∷ id ∷ []);
  }

  -- Trip reads `route.System.Id`, which panics for a nil route.
  unfoldable pub trip_reference :
      String
      → Option RouteReference
      → Option StopReference
      → Option VehicleReference
      → Bool
      → Response TripReference
  unfolding generate_resource
  trip_reference id none destination vehicle direction_id = panics
  trip_reference id (some route) destination vehicle direction_id = reply (record {
    id = id;
    route = route;
    destination = destination;
    vehicle = vehicle;
    direction_id = direction_id;
    resource =
        generate_resource ("systems" ∷ route.system.id ∷ "routes" ∷ route.id ∷ "trips" ∷ id ∷ []);
  })
