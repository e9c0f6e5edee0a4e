-- ===== src/Discovery/AutoRegister/Laws.antt =====
-- cpool/grpc/auto_register.go: which handlers `AutoRegister` reports, and which routes it adds.
use go_rpc_gateway.Prelude.{
  ◌≡◌, ◌↔◌, refl, sym, ap, ◌∙◌, Bool, true, false, ◌&&◌, any, Option, List, [], ◌∷◌, ◌++◌, map, All,
  String,
}
use mathlib.Core.List.{append-nil}
use go_rpc_gateway.Prelude.Dict.{Dict}
use go_rpc_gateway.Discovery.Reflection.{sort_strings}
use go_rpc_gateway.Discovery.Routes.{HttpRoute, show}
use go_rpc_gateway.Discovery.Registration.{SvcRoutes, Routed, all_routes, register_dynamic_handlers}
use go_rpc_gateway.Discovery.Registration.Laws.{
  Parses, accepted, routes_in, register_dynamic_handlers-accepted,
}
use go_rpc_gateway.Discovery.Registration.Offered.{
  any_same, any-accepted, any-routes_in, offers_client, any-all_routes,
}
use go_rpc_gateway.Discovery.Connections.{GrpcClient, Connections, init_all_connections}
use go_rpc_gateway.Discovery.AutoRegister.{
  Environment, State, reported, discover_connected_to, init_connections_and_discover,
  register_connected_to, auto_register,
}

module _ {Conn Certificates KeyPair Descriptor Raw : Type 0}
    (e : Environment Conn Certificates KeyPair Descriptor Raw) (parses : String → Bool)
    (laws : Parses e.serve_mux parses)
    (delivers : (P : SvcRoutes e.serve_mux → Type 0) (collected : List (SvcRoutes e.serve_mux))
      → All P collected ↔ All P (e.arrival collected)) where
  -- The routes of the services that are known, when a client is connected, that the mux accepts.
  abbrev pub discovered_routes : List String → State e → List HttpRoute
  discovered_routes [] now = []
  discovered_routes (name ∷ rest) now = accepted parses (
      routes_in e.serve_mux (
        e.arrival (
          all_routes e.serve_mux (e.find now.reflected.files) now.connections.pool
            now.reflected.services)))

  -- A discovery is done for every connected client.
  abbrev Discovered : List String → State e → Type 0
  Discovered [] now = Unit
  Discovered (name ∷ rest) now = now.reflected.initialized ≡ true

  register_connected_to-added :
      (connected : List String) (now : State e)
      → Discovered connected now
      → (let end = register_connected_to e connected now in
          let added = discovered_routes connected now in
          (end.0.routes ≡ now.routed.routes ++ added) × (end.1 ≡ sort_strings (map show added)))
  unfolding register_connected_to sort_strings
  register_connected_to-added [] now done = (sym (append-nil now.routed.routes), refl)
  register_connected_to-added (name ∷ rest) now done =
      let run : Bool → Routed e.serve_mux × Option (List String) = λ initialized.
        register_dynamic_handlers e.serve_mux initialized (e.find now.reflected.files) e.arrival
          now.connections.pool now.reflected.services now.routed in
      let added =
        register_dynamic_handlers-accepted e.serve_mux parses laws (e.find now.reflected.files)
          now.connections.pool now.reflected.services e.arrival
          (λ P collected. (delivers P collected).0) now.routed in
      (
        ap (λ initialized. (run initialized).0.routes) done ∙ added.0,
        ap (λ initialized. reported (run initialized).1) done ∙ ap reported added.1,
      )

  discover-Discovered :
      (connected : List String) (clients : Dict (Option GrpcClient))
      (connections : Connections Conn) (state : State e)
      → Discovered connected (record state {
        connections = connections;
        reflected = discover_connected_to e connected clients connections state.reflected;
      })
  unfolding discover_connected_to
  discover-Discovered [] clients connections state = tt
  discover-Discovered (name ∷ rest) clients connections state = refl

  abbrev pub is_connected : List String → Bool
  is_connected [] = false
  is_connected (name ∷ rest) = true

  -- Some service of a client with a connection offers a route that the mux can parse and that passes
  -- the test.
  abbrev pub offers_parsed : (HttpRoute → Bool) → State e → Bool
  offers_parsed p now =
      any
        (offers_client e.serve_mux (λ r. parses r.http_path && p r) (e.find now.reflected.files)
          now.connections.pool)
        now.reflected.services

  any-discovered_routes :
      (p : HttpRoute → Bool) (connected : List String) (now : State e)
      → any p (discovered_routes connected now) ≡ (is_connected connected && offers_parsed p now)
  any-discovered_routes p [] now = refl
  any-discovered_routes p (name ∷ rest) now =
      let test : HttpRoute → Bool = λ r. parses r.http_path && p r in
      let collected =
        all_routes e.serve_mux (e.find now.reflected.files) now.connections.pool
          now.reflected.services in
      any-accepted parses p (routes_in e.serve_mux (e.arrival collected))
      ∙ any-routes_in e.serve_mux test (e.arrival collected)
      ∙ any_same collected (e.arrival collected) (λ P. delivers P collected)
          (λ sr. any test sr.routes)
      ∙ any-all_routes e.serve_mux test (e.find now.reflected.files) now.connections.pool
          now.reflected.services

  -- When the mux takes a handler exactly for a path that it can parse and the channel delivers what
  -- was sent, in any order: `AutoRegister` appends routes to the list and reports their names, sorted,
  -- as its handlers. Whatever the configuration, the pool and the answers of the servers, among these
  -- routes is one that passes a given test exactly when a client is connected and some service known
  -- then, of a client with a connection, offers one by its rules, with a path that the mux can parse.
  pub auto_register-added :
      (clients : Dict (Option GrpcClient)) (state : State e)
      → (let now = (init_connections_and_discover e clients state).0 in
          let connected = (init_connections_and_discover e clients state).1 in
          let end = auto_register e clients state in
          (added : List HttpRoute) × (end.0.routed.routes ≡ state.routed.routes ++ added)
          × (end.1.handlers ≡ sort_strings (map show added))
          × ((p : HttpRoute → Bool)
              → any p added ≡ (is_connected connected && offers_parsed p now)))
  unfolding auto_register init_connections_and_discover
  auto_register-added clients state =
      let init = init_all_connections e.dialer e.survives clients state.connections in
      let now : State e = record state {
        connections = init.0;
        reflected = discover_connected_to e init.1 clients init.0 state.reflected;
      } in
      let (routes, handlers) =
        register_connected_to-added init.1 now (discover-Discovered init.1 clients init.0 state) in
      (discovered_routes init.1 now, routes, handlers, λ p. any-discovered_routes p init.1 now)
