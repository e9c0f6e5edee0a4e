-- ===== src/Discovery/Routes/Offers.antt =====
-- cpool/grpc/auto_register.go: which routes a service offers, described by its rules, as tests of a
-- route, and what `extractHTTPRoutes` makes of them.
use go_rpc_gateway.Prelude.{
  ◌≡◌, refl, ap, ◌∙◌, Bool, false, not, ◌&&◌, ◌||◌, Option, none, some, List, [], ◌∷◌, ◌++◌, any,
  String, str_eq, Option-cases, inl, inr, arith,
}
use go_rpc_gateway.Discovery.Routes.{
  HttpRoute, Pattern, get, put, post, delete, patch, custom, Binding, HttpRule, Method, Service,
  set_pattern, binding_routes, pattern_routes, rule_routes, routes_of, extract_http_routes,
}

-- The HTTP method and the path of a pattern.
abbrev pub verb : Pattern → String
verb (get path) = "GET"
verb (put path) = "PUT"
verb (post path) = "POST"
verb (delete path) = "DELETE"
verb (patch path) = "PATCH"
verb (custom kind path) = kind

abbrev pub place : Pattern → String
place (get path) = path
place (put path) = path
place (post path) = path
place (delete path) = path
place (patch path) = path
place (custom kind path) = path

pub any-append {ℓ} :
    {A : Type ℓ} (p : A → Bool) (xs ys : List A) → any p (xs ++ ys) ≡ (any p xs || any p ys)
any-append p [] ys = refl
any-append p (x ∷ xs) ys = ground (arith, any-append p xs ys)

module _ (p : HttpRoute → Bool) where
  -- A route passes the test that has a path.
  abbrev offered : (service method kind path body : String) → Bool
  offered service method kind path body =
      not (str_eq path "")
      && p (record {
        service_name = service;
        method_name = method;
        http_method = kind;
        http_path = path;
        body_field = body;
      })

  -- A binding has a pattern of its own, or that of its rule.
  abbrev offers_binding : (service method : String) → Pattern → Binding → Bool
  offers_binding service method own binding = elim binding.pattern [
    | none ↦ offered service method (verb own) (place own) binding.body
    | some q ↦ offered service method (verb q) (place q) binding.body
  ]

  -- A rule offers nothing without a pattern with a path, and else its own route and its bindings.
  abbrev offers_rule : (service method : String) → HttpRule → Bool
  offers_rule service method rule = elim rule.pattern [
    | none ↦ false
    | some q ↦
        not (str_eq (place q) "")
        && (any (offers_binding service method q) rule.additional_bindings
            || offered service method (verb q) (place q) rule.body)
  ]

  abbrev pub offers_method : {Descriptor : Type 0} → String → Method Descriptor → Bool
  offers_method service method = elim method.http [
    | none ↦ false
    | some rule ↦ offers_rule service method.name rule
  ]

  -- Some route that a service offers passes the test.
  abbrev pub offers : {Descriptor : Type 0} → Service Descriptor → Bool
  offers service = any (offers_method service.full_name) service.methods

  abbrev bare : (service method body : String) → HttpRoute
  bare service method body = record {
    service_name = service;
    method_name = method;
    http_method = "";
    http_path = "";
    body_field = body;
  }

  set_pattern_lem :
      (q : Pattern) (route : HttpRoute)
      → set_pattern (some q) route ≡ record route { http_method = verb q; http_path = place q }
  unfolding set_pattern
  set_pattern_lem (get path) route = refl
  set_pattern_lem (put path) route = refl
  set_pattern_lem (post path) route = refl
  set_pattern_lem (delete path) route = refl
  set_pattern_lem (patch path) route = refl
  set_pattern_lem (custom kind path) route = refl

  any-binding_routes :
      (service method body : String) (q : Pattern) (bindings : List Binding)
      → any p (
          binding_routes
            (record (bare service method body) { http_method = verb q; http_path = place q })
            bindings)
        ≡ any (offers_binding service method q) bindings
  unfolding binding_routes set_pattern
  any-binding_routes service method body q [] = refl
  any-binding_routes service method body q (binding ∷ rest) = elim (Option-cases binding.pattern) [
    | inl inherited ↦ ground (arith, inherited, any-binding_routes service method body q rest)
    | inr (r, given) ↦ ground (
      arith,
      given,
      any-binding_routes service method body q rest,
      set_pattern_lem r
          (record (bare service method body) { http_method = verb q; http_path = place q }),
    )
  ]

  any-pattern_routes :
      (service method body : String) (pattern : Option Pattern) (bindings : List Binding)
      → any p (pattern_routes (bare service method body) pattern bindings)
        ≡ offers_rule service method
            (record { pattern = pattern; body = body; additional_bindings = bindings })
  unfolding pattern_routes
  any-pattern_routes service method body none bindings = refl
  any-pattern_routes service method body (some q) bindings =
      let own : HttpRoute = record (bare service method body) {
        http_method = verb q;
        http_path = place q;
      } in
      ground (
        arith,
        set_pattern_lem q (bare service method body),
        any-append p (binding_routes own bindings) (own ∷ []),
        any-binding_routes service method body q bindings,
      )

  any-rule_routes :
      (service method : String) (http : Option HttpRule)
      → any p (rule_routes service method http)
        ≡ elim http [ none ↦ false | some rule ↦ offers_rule service method rule ]
  unfolding rule_routes
  any-rule_routes service method none = refl
  any-rule_routes service method (some rule) =
      any-pattern_routes service method rule.body rule.pattern rule.additional_bindings

  any-routes_of :
      {Descriptor : Type 0} (service : String) (methods : List (Method Descriptor))
      → any p (routes_of service methods) ≡ any (offers_method service) methods
  unfolding routes_of
  any-routes_of service [] = refl
  any-routes_of service (method ∷ rest) =
      any-append p (rule_routes service method.name method.http) (routes_of service rest)
      ∙ ap (λ b. b || any p (routes_of service rest))
          (any-rule_routes service method.name method.http)
      ∙ ap (λ b. offers_method service method || b) (any-routes_of service rest)

  pub any-extract_http_routes :
      {Descriptor : Type 0} (service : Service Descriptor)
      → any p (extract_http_routes service) ≡ offers service
  any-extract_http_routes service = any-routes_of service.full_name service.methods
