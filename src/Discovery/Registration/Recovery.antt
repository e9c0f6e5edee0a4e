-- ===== src/Discovery/Registration/Recovery.antt =====
-- cpool/grpc/auto_register.go: what a rediscovery after a recovery adds to the list of routes.
use mathlib.Core.List.{append-nil, append_assoc}
use go_rpc_gateway.Prelude.{
  if_either, ◌≡◌, refl, sym, ap, ◌∙◌, Bool, false, Option, none, some, List, [], ◌∷◌, ◌++◌, map,
  All, String,
}
use go_rpc_gateway.Prelude.Dict.{Dict, lookup}
use go_rpc_gateway.Discovery.Routes.{HttpRoute, Service, extract_http_routes, show, collect_routes}
use go_rpc_gateway.Discovery.Routes.Laws.{
  extract_http_routes-Registrable, has_space, bare, collect_routes-show,
}
use go_rpc_gateway.Discovery.Registration.{
  ServeMux, register_service, register_services, register_connected, with_collected, SvcRoutes,
  sent, sent_by, client_routes, sent, sent_by, client_routes, Routed, register_again,
}
use go_rpc_gateway.Discovery.Registration.Laws.{
  accepted, accepted-append, map-append, Parses, routes_in, register_routes-accepted,
}

-- The HTTP methods of the routes have no space.
abbrev pub Plain : List HttpRoute → Type 0
Plain routes = All (λ (route : HttpRoute). has_space route.http_method ≡ false) routes

accepted-Plain :
    (parses : String → Bool) (routes : List HttpRoute)
    → Plain routes
    → Plain (accepted parses routes)
unfolding accepted
accepted-Plain parses [] plain = tt
accepted-Plain parses (route ∷ rest) plain =
    if_either Plain (parses route.http_path) (plain.0, accepted-Plain parses rest plain.1)
      (accepted-Plain parses rest plain.1)

module _ {Conn Descriptor : Type 0} (s : ServeMux Conn Descriptor) (parses : String → Bool)
    (laws : Parses s parses) where
  routes_in-append :
      (xs ys : List (SvcRoutes s)) → routes_in s (xs ++ ys) ≡ routes_in s xs ++ routes_in s ys
  routes_in-append [] ys = refl
  routes_in-append (sr ∷ rest) ys =
      ap (λ later. sr.routes ++ later) (routes_in-append rest ys)
      ∙ sym (append_assoc sr.routes (routes_in s rest) (routes_in s ys))

  routes_in-sent :
      (conn : Conn) (service : Service Descriptor) (routes : List HttpRoute)
      → routes_in s (sent s conn service routes) ≡ routes
  unfolding sent
  routes_in-sent conn service [] = refl
  routes_in-sent conn service (route ∷ routes) = append-nil (route ∷ routes)

  register_service-accepted :
      (conn : Conn) (found : Option (Service Descriptor)) (mux : s.Mux)
      → (register_service s conn found mux).1
        ≡ map show (accepted parses (routes_in s (sent_by s conn found)))
  unfolding register_service sent_by accepted
  register_service-accepted conn none mux = refl
  register_service-accepted conn (some service) mux =
      let routes = extract_http_routes service in
      register_routes-accepted s parses laws conn service routes mux
        (extract_http_routes-Registrable service)
      ∙ ap (λ own. map show (accepted parses own)) (sym (routes_in-sent conn service routes))

  module _ (find : String → Option (Service Descriptor)) where
    register_services-accepted :
        (conn : Conn) (infos : List String) (mux : s.Mux)
        → (register_services s find conn infos mux).1
          ≡ map show (accepted parses (routes_in s (client_routes s find (some conn) infos)))
    unfolding register_services client_routes accepted
    register_services-accepted conn [] mux = refl
    register_services-accepted conn (info ∷ rest) mux =
        let own = register_service s conn (find info) mux in
        let mine = sent_by s conn (find info) in
        let others = client_routes s find (some conn) rest in
        ap (λ names. names ++ (register_services s find conn rest own.0).1)
          (register_service-accepted conn (find info) mux)
        ∙ ap (λ names. map show (accepted parses (routes_in s mine)) ++ names)
            (register_services-accepted conn rest own.0)
        ∙ sym (
            map-append show (accepted parses (routes_in s mine))
              (accepted parses (routes_in s others)))
        ∙ ap (map show) (
            sym (accepted-append parses (routes_in s mine) (routes_in s others))
            ∙ ap (accepted parses) (sym (routes_in-append mine others)))

    register_connected-accepted :
        (conn : Option Conn) (infos : List String) (mux : s.Mux)
        → (register_connected s find conn infos mux).1
          ≡ map show (accepted parses (routes_in s (client_routes s find conn infos)))
    unfolding register_connected client_routes accepted
    register_connected-accepted none infos mux = refl
    register_connected-accepted (some conn) infos mux = register_services-accepted conn infos mux

    with_collected-append :
        (names : List String) (routes : List HttpRoute)
        → with_collected names routes ≡ routes ++ collect_routes names
    unfolding with_collected collect_routes
    with_collected-append [] routes = sym (append-nil routes)
    with_collected-append (name ∷ rest) routes = refl

    -- When the HTTP methods of a client's routes have no space, and the mux takes a handler
    -- exactly for a path that it can parse: a recovery of the client adds each of its routes that
    -- the mux accepts to the list once more, whether the list has it or not, and without its
    -- service, its method and its body field.
    pub register_again-bare :
        (conns : Dict Conn) (client : String) (infos : List String) (routed : Routed s)
        → Plain (routes_in s (client_routes s find (lookup client conns) infos))
        → (let own = routes_in s (client_routes s find (lookup client conns) infos) in
            (register_again s find conns client infos routed).routes
            ≡ routed.routes ++ map bare (accepted parses own))
    unfolding register_again
    register_again-bare conns client infos routed plain =
        let own = routes_in s (client_routes s find (lookup client conns) infos) in
        let names = (register_connected s find (lookup client conns) infos routed.mux).1 in
        with_collected-append names routed.routes
        ∙ ap (λ added. routed.routes ++ added)
            (ap collect_routes (register_connected-accepted (lookup client conns) infos routed.mux)
              ∙ collect_routes-show (accepted parses own) (accepted-Plain parses own plain))
