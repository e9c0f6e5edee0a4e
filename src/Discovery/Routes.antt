-- ===== src/Discovery/Routes.antt =====
-- cpool/grpc/auto_register.go: the HTTP routes of a service, read from the google.api.http options of
-- its methods. `Type` is the type of message descriptors.
pub mod Laws
pub mod Offers
use Prim.Native.Char.{code}
use Prim.Native.String
use Prim.Native.String.{[], ◌∷◌}
use go_rpc_gateway.Prelude.{
  ℕ, Bool, true, false, Option, none, some, List, [], ◌∷◌, ◌++◌, String, str_eq, ◌==◌,
  if◌then◌else◌,
}

pub record HttpRoute : Type 0 where
  pub service_name : String
  pub method_name : String
  pub http_method : String
  pub http_path : String
  pub body_field : String

-- The `oneof` of an `HttpRule`; `custom` has a kind and a path.
pub data Pattern : Type 0 where
  get put post delete patch : String → Pattern
  custom : String → String → Pattern

-- An additional binding is an `HttpRule` whose own additional bindings nothing reads.
pub record Binding : Type 0 where
  pub pattern : Option Pattern
  pub body : String

pub record HttpRule : Type 0 where
  pub pattern : Option Pattern
  pub body : String
  pub additional_bindings : List Binding

pub record Method (Descriptor : Type 0) : Type 0 where
  pub name : String
  pub http : Option HttpRule
  pub input : Descriptor
  pub output : Descriptor

pub record Service (Descriptor : Type 0) : Type 0 where
  pub full_name : String
  pub methods : List (Method Descriptor)

unfoldable pub set_pattern : Option Pattern → HttpRoute → HttpRoute
set_pattern none route = route
set_pattern (some (get path)) route = record route { http_method = "GET"; http_path = path }
set_pattern (some (put path)) route = record route { http_method = "PUT"; http_path = path }
set_pattern (some (post path)) route = record route { http_method = "POST"; http_path = path }
set_pattern (some (delete path)) route = record route { http_method = "DELETE"; http_path = path }
set_pattern (some (patch path)) route = record route { http_method = "PATCH"; http_path = path }
set_pattern (some (custom kind path)) route = record route { http_method = kind; http_path = path }

-- A binding starts from the route of its rule.
unfoldable pub binding_routes : HttpRoute → List Binding → List HttpRoute
unfolding set_pattern
binding_routes route [] = []
binding_routes route (binding ∷ rest) =
    let extra_route = set_pattern binding.pattern route in
    let later = binding_routes route rest in
    if str_eq extra_route.http_path ""
    then later
    else record extra_route { body_field = binding.body } ∷ later

-- The bindings come before the route itself; without a pattern or a path there are neither.
unfoldable pub pattern_routes : HttpRoute → Option Pattern → List Binding → List HttpRoute
unfolding binding_routes set_pattern
pattern_routes bare none bindings = []
pattern_routes bare (some pattern) bindings =
    let route = set_pattern (some pattern) bare in
    if str_eq route.http_path "" then [] else binding_routes route bindings ++ (route ∷ [])

-- A method without the option has no route.
unfoldable pub rule_routes : String → String → Option HttpRule → List HttpRoute
unfolding pattern_routes
rule_routes service method none = []
rule_routes service method (some rule) =
    pattern_routes
      (record {
        service_name = service;
        method_name = method;
        http_method = "";
        http_path = "";
        body_field = rule.body;
      })
      rule.pattern rule.additional_bindings

module _ {Descriptor : Type 0} where
  unfoldable pub routes_of : String → List (Method Descriptor) → List HttpRoute
  unfolding rule_routes
  routes_of service [] = []
  routes_of service (method ∷ rest) =
      rule_routes service method.name method.http ++ routes_of service rest

  abbrev pub extract_http_routes : Service Descriptor → List HttpRoute
  extract_http_routes service = routes_of service.full_name service.methods

  -- `Methods().ByName`
  unfoldable pub method_by_name : String → List (Method Descriptor) → Option (Method Descriptor)
  method_by_name name [] = none
  method_by_name name (method ∷ rest) =
      if str_eq method.name name then some method else method_by_name name rest

-- `fmt.Sprintf("%s %s", route.HTTPMethod, route.HTTPPath)`
unfoldable pub show : HttpRoute → String
show route = String.◌++◌ route.http_method (String.◌++◌ " " route.http_path)

-- `strings.SplitN(r, " ", 2)`, when it has two parts; 32 is the space.
unfoldable pub split_space : String → Option (String × String)
split_space [] = none
split_space (ch ∷ s) =
    let later = split_space s in
    if code ch == 32
    then some ("", s)
    else elim later [ none ↦ none | some (before, after) ↦ some ((ch ∷ before), after) ]

unfoldable pub collect_routes : List String → List HttpRoute
unfolding split_space
collect_routes [] = []
collect_routes (r ∷ rest) = elim (split_space r) [
  | none ↦ collect_routes rest
  | some (method, path) ↦
      record {
        service_name = "";
        method_name = "";
        http_method = method;
        http_path = path;
        body_field = "";
      }
      ∷ collect_routes rest
]
