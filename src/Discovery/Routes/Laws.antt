-- ===== src/Discovery/Routes/Laws.antt =====
-- cpool/grpc/auto_register.go: what the extracted routes name, and what is read back of the names of
-- registered routes.
use Prim.Native.Char.{code}
use Prim.Native.String
use Prim.Native.String.append
use Prim.Native.String.{[], ◌∷◌}
use go_rpc_gateway.Prelude.{
  ◌≡◌, ◌≢◌, inl, inr, refl, sym, ap, subst, ◌∙◌, Bool, true, false, Option, none, some, List, [],
  ◌∷◌, ◌++◌, map, All, String, str_eq, eq_iff, ◌==◌, if◌then◌else◌, Bool-cases, arith,
}
use go_rpc_gateway.Discovery.Routes.{
  HttpRoute, Pattern, get, put, post, delete, patch, custom, Binding, HttpRule, Method, Service,
  set_pattern, binding_routes, rule_routes, pattern_routes, routes_of, extract_http_routes,
  method_by_name, show, split_space, collect_routes,
}

pub All-append {ℓ κ} :
    {A : Type ℓ} (P : A → Type κ) (xs ys : List A) → All P xs → All P ys → All P (xs ++ ys)
All-append P [] ys px py = py
All-append P (x ∷ xs) ys px py = (px.0, All-append P xs ys px.1 py)

-- A route of a service and of one of its methods.
pub record BelongsTo (service method : String) (route : HttpRoute) : Type 0 where
  pub service_name : route.service_name ≡ service
  pub method_name : route.method_name ≡ method
  pub path : route.http_path ≢ ""

set_pattern-names :
    (pattern : Option Pattern) (route : HttpRoute)
    → ((set_pattern pattern route).service_name ≡ route.service_name)
      × ((set_pattern pattern route).method_name ≡ route.method_name)
unfolding set_pattern
set_pattern-names none route = (refl, refl)
set_pattern-names (some (get path)) route = (refl, refl)
set_pattern-names (some (put path)) route = (refl, refl)
set_pattern-names (some (post path)) route = (refl, refl)
set_pattern-names (some (delete path)) route = (refl, refl)
set_pattern-names (some (patch path)) route = (refl, refl)
set_pattern-names (some (custom kind path)) route = (refl, refl)

-- A test that fails says that the path is not empty.
not_empty : (path : String) → str_eq path "" ≡ false → path ≢ ""
not_empty path h = ground (arith, h, eq_iff path "")

binding_routes-BelongsTo :
    (service method : String) (route : HttpRoute) (bindings : List Binding)
    → route.service_name ≡ service
    → route.method_name ≡ method
    → All (BelongsTo service method) (binding_routes route bindings)
unfolding binding_routes
binding_routes-BelongsTo service method route [] s m = tt
binding_routes-BelongsTo service method route (binding ∷ rest) s m =
    let later = binding_routes-BelongsTo service method route rest s m in
    let extra = set_pattern binding.pattern route in
    let same = set_pattern-names binding.pattern route in
    elim (Bool-cases (str_eq extra.http_path "")) [
      | inl empty ↦ rw empty later
      | inr path ↦ rw path (
        record {
          service_name = same.0 ∙ s;
          method_name = same.1 ∙ m;
          path = not_empty extra.http_path path;
        },
        later,
      )
    ]

pattern_routes-BelongsTo :
    (service method : String) (route : HttpRoute) (pattern : Option Pattern)
    (bindings : List Binding)
    → route.service_name ≡ service
    → route.method_name ≡ method
    → All (BelongsTo service method) (pattern_routes route pattern bindings)
unfolding pattern_routes
pattern_routes-BelongsTo service method route none bindings s m = tt
pattern_routes-BelongsTo service method route (some pattern) bindings s m =
    let own = set_pattern (some pattern) route in
    let same = set_pattern-names (some pattern) route in
    elim (Bool-cases (str_eq own.http_path "")) [
      | inl empty ↦ rw empty tt
      | inr path ↦ rw path (
          All-append (BelongsTo service method) (binding_routes own bindings) (own ∷ [])
            (binding_routes-BelongsTo service method own bindings (same.0 ∙ s) (same.1 ∙ m))
            (
              record {
                service_name = same.0 ∙ s;
                method_name = same.1 ∙ m;
                path = not_empty own.http_path path;
              },
              tt,
            ))
    ]

rule_routes-BelongsTo :
    (service method : String) (http : Option HttpRule)
    → All (BelongsTo service method) (rule_routes service method http)
unfolding rule_routes
rule_routes-BelongsTo service method none = tt
rule_routes-BelongsTo service method (some rule) =
    pattern_routes-BelongsTo service method _ rule.pattern rule.additional_bindings refl refl

-- A route that a handler can be made for: it is of the service, has a path, and names a method.
pub record Registrable {Descriptor : Type 0} (service : Service Descriptor) (route : HttpRoute)
    : Type 0 where
  pub service_name : route.service_name ≡ service.full_name
  pub has_method : method_by_name route.method_name service.methods ≢ none
  pub path : route.http_path ≢ ""

All-map {ℓ κ μ} :
    {A : Type ℓ} (P : A → Type κ) (Q : A → Type μ) (xs : List A)
    → ((x : A) → P x → Q x)
    → All P xs
    → All Q xs
All-map P Q [] f ps = tt
All-map P Q (x ∷ xs) f ps = (f x ps.0, All-map P Q xs f ps.1)

module _ {Descriptor : Type 0} (service : Service Descriptor) where
  rule_routes-Registrable :
      (method : Method Descriptor)
      → method_by_name method.name service.methods ≢ none
      → All (Registrable service) (rule_routes service.full_name method.name method.http)
  rule_routes-Registrable method known =
      All-map (BelongsTo service.full_name method.name) (Registrable service)
        (rule_routes service.full_name method.name method.http)
        (λ route own. record {
          service_name = own.service_name;
          has_method =
              subst (λ (n : String). method_by_name n service.methods ≢ none) (sym own.method_name)
                known;
          path = own.path;
        })
        (rule_routes-BelongsTo service.full_name method.name method.http)

  method_by_name-here :
      (method : Method Descriptor) (rest : List (Method Descriptor))
      → method_by_name method.name (method ∷ rest) ≢ none
  unfolding method_by_name
  method_by_name-here method rest = ground (arith, eq_iff method.name method.name)

  method_by_name-later :
      (name : String) (method : Method Descriptor) (rest : List (Method Descriptor))
      → method_by_name name rest ≢ none
      → method_by_name name (method ∷ rest) ≢ none
  unfolding method_by_name
  method_by_name-later name method rest known = ground (arith, known)

  routes_of-Registrable :
      (methods : List (Method Descriptor))
      → ((name : String)
          → method_by_name name methods ≢ none
          → method_by_name name service.methods ≢ none)
      → All (Registrable service) (routes_of service.full_name methods)
  unfolding routes_of
  routes_of-Registrable [] known = tt
  routes_of-Registrable (method ∷ rest) known =
      All-append (Registrable service) (rule_routes service.full_name method.name method.http)
        (routes_of service.full_name rest)
        (rule_routes-Registrable method (known method.name (method_by_name-here method rest)))
        (routes_of-Registrable rest
          (λ name h. known name (method_by_name-later name method rest h)))

  -- Every route that is extracted from a service is of the service, names one of its methods and has
  -- a path.
  pub extract_http_routes-Registrable : All (Registrable service) (extract_http_routes service)
  extract_http_routes-Registrable = routes_of-Registrable service.methods (λ name h. h)

-- An HTTP method without a space.
unfoldable pub has_space : String → Bool
has_space [] = false
has_space (ch ∷ s) = if code ch == 32 then true else has_space s

split_space-cons : (path : String) → split_space (String.◌++◌ " " path) ≡ some ("", path)
unfolding split_space
split_space-cons path =
    ap split_space (append.cons _ "" path) ∙ ap (λ (s : String). some ("", s)) (append.nil path)

split_space-show :
    (method path : String)
    → has_space method ≡ false
    → split_space (String.◌++◌ method (String.◌++◌ " " path)) ≡ some (method, path)
unfolding has_space split_space
split_space-show [] path h =
    ap split_space (append.nil (String.◌++◌ " " path)) ∙ split_space-cons path
split_space-show (ch ∷ s) path h =
    ap split_space (append.cons ch s (String.◌++◌ " " path))
    ∙ ground (arith, h, split_space-show s path)

-- A route of which only the HTTP method and the path are known.
abbrev pub bare : HttpRoute → HttpRoute
bare route = record {
  service_name = "";
  method_name = "";
  http_method = route.http_method;
  http_path = route.http_path;
  body_field = "";
}

-- Of routes whose HTTP methods have no space, `collectRoutes` reads back the HTTP method and the path,
-- and loses the service, the method and the body field.
pub collect_routes-show :
    (routes : List HttpRoute)
    → All (λ (route : HttpRoute). has_space route.http_method ≡ false) routes
    → collect_routes (map show routes) ≡ map bare routes
unfolding collect_routes show
collect_routes-show [] plain = refl
collect_routes-show (route ∷ rest) plain =
    rw
      (
        split_space-show route.http_method route.http_path plain.0,
        collect_routes,
        collect_routes-show rest plain.1,
      )
      refl
