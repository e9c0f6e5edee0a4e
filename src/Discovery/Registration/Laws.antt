-- ===== src/Discovery/Registration/Laws.antt =====
-- cpool/grpc/auto_register.go: which routes a registration adds to the mux and to the list of routes.
use go_rpc_gateway.Prelude.{
  ◌≡◌, ◌≢◌, ◌↔◌, inl, inr, refl, sym, ap, ◌∙◌, Bool, true, false, Option, none, some, List, [], ◌∷◌,
  ◌++◌, map, All, String, if◌then◌else◌, Bool-cases, Option-cases, arith,
}
use go_rpc_gateway.Prelude.Dict.{Dict, lookup}
use go_rpc_gateway.Discovery.Routes.{HttpRoute, Service, extract_http_routes, method_by_name, show}
use go_rpc_gateway.Discovery.Routes.Laws.{Registrable, extract_http_routes-Registrable, All-append}
use go_rpc_gateway.Discovery.Reflection.{sort_strings}
use go_rpc_gateway.Discovery.Registration.{
  DynamicHandler, ServeMux, dynamic_handler, register_single_route, register_routes, SvcRoutes,
  sent, sent_by, client_routes, all_routes, register_new, register_collected, Routed,
  register_dynamic_handlers,
}

-- The routes whose paths a mux can parse.
unfoldable pub accepted : (String → Bool) → List HttpRoute → List HttpRoute
accepted parses [] = []
accepted parses (route ∷ rest) =
    let later = accepted parses rest in if parses route.http_path then route ∷ later else later

pub accepted-append :
    (parses : String → Bool) (xs ys : List HttpRoute)
    → accepted parses (xs ++ ys) ≡ accepted parses xs ++ accepted parses ys
unfolding accepted
accepted-append parses [] ys = refl
accepted-append parses (route ∷ rest) ys = ground (arith, accepted-append parses rest ys)

pub map-append {ℓ κ} :
    {A : Type ℓ} {B : Type κ} (f : A → B) (xs ys : List A) → map f (xs ++ ys) ≡ map f xs ++ map f ys
map-append f [] ys = refl
map-append f (x ∷ xs) ys = ap (λ rest. f x ∷ rest) (map-append f xs ys)

-- A mux takes a handler exactly when it can parse the path.
pub record Parses {Conn Descriptor : Type 0} (s : ServeMux Conn Descriptor) (parses : String → Bool)
    : Type 0 where
  pub handle_path-some_iff :
      (method path : String) (handler : DynamicHandler Conn Descriptor) (mux : s.Mux)
      → (s.handle_path method path handler mux ≢ none) ↔ (parses path ≡ true)

module _ {Conn Descriptor : Type 0} (s : ServeMux Conn Descriptor) where
  -- The routes of all services, one after another.
  abbrev pub routes_in : List (SvcRoutes s) → List HttpRoute
  routes_in [] = []
  routes_in (sr ∷ rest) = sr.routes ++ routes_in rest

module _ {Conn Descriptor : Type 0} (s : ServeMux Conn Descriptor) (parses : String → Bool)
    (laws : Parses s parses) where
  register_single_route-some_iff :
      (conn : Conn) (service : Service Descriptor) (route : HttpRoute) (mux : s.Mux)
      → Registrable service route
      → (register_single_route s conn service route mux ≢ none) ↔ (parses route.http_path ≡ true)
  unfolding register_single_route
  register_single_route-some_iff conn service route mux known =
      elim (Option-cases (method_by_name route.method_name service.methods)) [
        | inl missing ↦ absurd (known.has_method missing)
        | inr (method, found) ↦
            rw (found, register_single_route)
              (laws.handle_path-some_iff route.http_method route.http_path
                (dynamic_handler s conn service route method) mux)
      ]

  register_single_route-none :
      (conn : Conn) (service : Service Descriptor) (route : HttpRoute) (mux : s.Mux)
      → Registrable service route
      → register_single_route s conn service route mux ≡ none
      → parses route.http_path ≡ false
  register_single_route-none conn service route mux known failed =
      let possible = register_single_route-some_iff conn service route mux known in
      elim (Bool-cases (parses route.http_path)) [
        | inl parsed ↦ absurd (possible.1 parsed failed)
        | inr refused ↦ refused
      ]

  register_single_route-some :
      (conn : Conn) (service : Service Descriptor) (route : HttpRoute) (mux next : s.Mux)
      → Registrable service route
      → register_single_route s conn service route mux ≡ some next
      → parses route.http_path ≡ true
  register_single_route-some conn service route mux next known done =
      (register_single_route-some_iff conn service route mux known).0 (λ e. ground (arith, e, done))

  pub register_routes-accepted :
      (conn : Conn) (service : Service Descriptor) (routes : List HttpRoute) (mux : s.Mux)
      → All (Registrable service) routes
      → (register_routes s conn service routes mux).1 ≡ map show (accepted parses routes)
  unfolding register_routes accepted
  register_routes-accepted conn service [] mux known = refl
  register_routes-accepted conn service (route ∷ rest) mux known =
      elim (Option-cases (register_single_route s conn service route mux)) [
        | inl failed ↦ ground (
          arith,
          failed,
          register_single_route-none conn service route mux known.0 failed,
          register_routes-accepted conn service rest mux known.1,
        )
        | inr (next, done) ↦ ground (
          arith,
          done,
          register_single_route-some conn service route mux next known.0 done,
          register_routes-accepted conn service rest next known.1,
        )
      ]

  -- The new routes are those with a path that the mux can parse, and the names are theirs.
  register_new-accepted :
      (conn : Conn) (service : Service Descriptor) (routes : List HttpRoute) (mux : s.Mux)
      → All (Registrable service) routes
      → ((register_new s conn service routes mux).1 ≡ map show (accepted parses routes))
        × ((register_new s conn service routes mux).2 ≡ accepted parses routes)
  unfolding register_new accepted
  register_new-accepted conn service [] mux known = (refl, refl)
  register_new-accepted conn service (route ∷ rest) mux known =
      elim (Option-cases (register_single_route s conn service route mux)) [
        | inl failed ↦ ground (
          arith,
          failed,
          register_single_route-none conn service route mux known.0 failed,
          register_new-accepted conn service rest mux known.1,
        )
        | inr (next, done) ↦ ground (
          arith,
          done,
          register_single_route-some conn service route mux next known.0 done,
          register_new-accepted conn service rest next known.1,
        )
      ]

  -- A service of which a goroutine sends the routes.
  abbrev Extracted : SvcRoutes s → Type 0
  Extracted sr = All (Registrable sr.service) sr.routes

  sent-Extracted :
      (conn : Conn) (service : Service Descriptor) (routes : List HttpRoute)
      → All (Registrable service) routes
      → All Extracted (sent s conn service routes)
  unfolding sent
  sent-Extracted conn service [] known = tt
  sent-Extracted conn service (route ∷ routes) known = (known, tt)

  sent_by-Extracted :
      (conn : Conn) (found : Option (Service Descriptor)) → All Extracted (sent_by s conn found)
  unfolding sent_by
  sent_by-Extracted conn none = tt
  sent_by-Extracted conn (some service) =
      sent-Extracted conn service (extract_http_routes service)
        (extract_http_routes-Registrable service)

  module _ (find : String → Option (Service Descriptor)) (conns : Dict Conn) where
    client_routes-Extracted :
        (conn : Option Conn) (infos : List String) → All Extracted (client_routes s find conn infos)
    unfolding client_routes
    client_routes-Extracted none infos = tt
    client_routes-Extracted (some conn) [] = tt
    client_routes-Extracted (some conn) (info ∷ rest) =
        All-append Extracted (sent_by s conn (find info)) (client_routes s find (some conn) rest)
          (sent_by-Extracted conn (find info)) (client_routes-Extracted (some conn) rest)

    all_routes-Extracted :
        (services : Dict (List String)) → All Extracted (all_routes s find conns services)
    unfolding all_routes
    all_routes-Extracted [] = tt
    all_routes-Extracted ((client, infos) ∷ rest) =
        All-append Extracted (client_routes s find (lookup client conns) infos)
          (all_routes s find conns rest) (client_routes-Extracted (lookup client conns) infos)
          (all_routes-Extracted rest)

  register_collected-accepted :
      (collected : List (SvcRoutes s)) (mux : s.Mux)
      → All Extracted collected
      → ((register_collected s collected mux).1
          ≡ map show (accepted parses (routes_in s collected)))
        × ((register_collected s collected mux).2 ≡ accepted parses (routes_in s collected))
  unfolding register_collected accepted
  register_collected-accepted [] mux known = (refl, refl)
  register_collected-accepted (sr ∷ rest) mux known =
      let own = register_new-accepted sr.conn sr.service sr.routes mux known.0 in
      let later =
        register_collected-accepted rest (register_new s sr.conn sr.service sr.routes mux).0
          known.1 in
      let both = accepted-append parses sr.routes (routes_in s rest) in
      (
        rw (own.0, later.0)
            (sym (map-append show (accepted parses sr.routes) (accepted parses (routes_in s rest)))
              ∙ ap (map show) (sym both)),
        rw (own.1, later.1) (sym both),
      )

  -- When the discovery is done, whatever the order in which the channel delivers what was sent:
  -- `RegisterDynamicHandlers` adds to the list of routes exactly the extracted routes whose paths the
  -- mux can parse, in that order, and returns their names, sorted. So a method that is extracted is
  -- never missing when its route is registered.
  pub register_dynamic_handlers-accepted :
      (find : String → Option (Service Descriptor)) (conns : Dict Conn)
      (services : Dict (List String)) (arrival : List (SvcRoutes s) → List (SvcRoutes s))
      → ((P : SvcRoutes s → Type 0) (collected : List (SvcRoutes s))
          → All P collected
          → All P (arrival collected))
      → (routed : Routed s)
      → (let end = register_dynamic_handlers s true find arrival conns services routed in
          let new_routes =
            accepted parses (routes_in s (arrival (all_routes s find conns services))) in
          (end.0.routes ≡ routed.routes ++ new_routes)
          × (end.1 ≡ some (sort_strings (map show new_routes))))
  unfolding register_dynamic_handlers
  register_dynamic_handlers-accepted find conns services arrival delivers routed =
      let sent_routes = all_routes s find conns services in
      let own =
        register_collected-accepted (arrival sent_routes) routed.mux
          (delivers Extracted sent_routes (all_routes-Extracted find conns services)) in
      (ap (λ rest. routed.routes ++ rest) own.1, ap (λ names. some (sort_strings names)) own.0)
