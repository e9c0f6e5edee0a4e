-- ===== src/Discovery/Registration.antt =====
-- cpool/grpc/auto_register.go: the routes of the services are registered with the mux, when the
-- gateway starts and when a service recovers. `Conn` is the type of connections.
pub mod Laws
pub mod Offered
pub mod Recovery
use Prim.Native.String
use go_rpc_gateway.Prelude.{
  ℕ, Bool, true, false, not, Option, none, some, List, [], ◌∷◌, ◌++◌, String, if◌then◌else◌, length,
}
use go_rpc_gateway.Prelude.Dict.{Dict, lookup, insert}
use go_rpc_gateway.Discovery.Files.{Protos, Progress, register_file_descriptors}
use go_rpc_gateway.Discovery.Routes.{
  HttpRoute, Method, Service, extract_http_routes, method_by_name, show, collect_routes,
}
use go_rpc_gateway.Discovery.Reflection.{Stream, Reflected, sort_strings, discover_single_client}

-- Only when a route is registered does the list of routes change.
unfoldable pub with_collected : List String → List HttpRoute → List HttpRoute
with_collected [] routes = routes
with_collected (r ∷ rest) routes = routes ++ collect_routes (r ∷ rest)

-- What `createDynamicHandler` closes over.
pub record DynamicHandler (Conn Descriptor : Type 0) : Type 0 where
  pub conn : Conn
  pub full_method_name : String
  pub input_type : Descriptor
  pub output_type : Descriptor
  pub route : HttpRoute

-- Package runtime of grpc-gateway: a mux takes a handler for a method and a path, or none when it
-- cannot parse the path.
pub record ServeMux (Conn Descriptor : Type 0) : Type 1 where
  pub Mux : Type 0
  pub handle_path : String → String → DynamicHandler Conn Descriptor → Mux → Option Mux

module _ {Conn Descriptor : Type 0} (s : ServeMux Conn Descriptor) where
  open s use {Mux}

  unfoldable pub dynamic_handler :
      Conn → Service Descriptor → HttpRoute → Method Descriptor → DynamicHandler Conn Descriptor
  dynamic_handler conn service route method = record {
    conn = conn;
    full_method_name =
        String.◌++◌ "/" (String.◌++◌ service.full_name (String.◌++◌ "/" route.method_name));
    input_type = method.input;
    output_type = method.output;
    route = route;
  }

  -- `none` for an error.
  unfoldable pub register_single_route : Conn → Service Descriptor → HttpRoute → Mux → Option Mux
  unfolding dynamic_handler
  register_single_route conn service route mux =
      elim (method_by_name route.method_name service.methods) [
        | none ↦ none
        | some method ↦
            s.handle_path route.http_method route.http_path
              (dynamic_handler conn service route method) mux
      ]

  -- The loop of `registerClientHandlers` over the routes of a service.
  unfoldable pub register_routes :
      Conn → Service Descriptor → List HttpRoute → Mux → Mux × List String
  unfolding register_single_route
  register_routes conn service [] mux = (mux, [])
  register_routes conn service (route ∷ rest) mux =
      elim (register_single_route conn service route mux) [
        | none ↦ register_routes conn service rest mux
        | some next ↦
            let later = register_routes conn service rest next in (later.0, show route ∷ later.1)
      ]

  -- What the lookup of a service comes to.
  unfoldable pub register_service : Conn → Option (Service Descriptor) → Mux → Mux × List String
  unfolding register_routes
  register_service conn none mux = (mux, [])
  register_service conn (some service) mux =
      register_routes conn service (extract_http_routes service) mux

  -- The loop over the services of a client; `find` is `FindDescriptorByName`, of services.
  unfoldable pub register_services :
      (String → Option (Service Descriptor)) → Conn → List String → Mux → Mux × List String
  unfolding register_service
  register_services find conn [] mux = (mux, [])
  register_services find conn (info ∷ rest) mux =
      let own = register_service conn (find info) mux in
      let later = register_services find conn rest own.0 in (later.0, own.1 ++ later.1)

  -- By the client's connection, when there is one.
  unfoldable pub register_connected :
      (String → Option (Service Descriptor)) → Option Conn → List String → Mux → Mux × List String
  unfolding register_services
  register_connected find none infos mux = (mux, [])
  register_connected find (some conn) infos mux = register_services find conn infos mux

  abbrev pub register_client_handlers :
      (String → Option (Service Descriptor))
      → Dict Conn
      → String
      → List String
      → Mux
      → Mux × List String
  register_client_handlers find conns client infos mux =
      register_connected find (lookup client conns) infos mux

  -- The routes that one goroutine sends; of a service without routes it sends nothing.
  pub record SvcRoutes : Type 0 where
    pub conn : Conn
    pub service : Service Descriptor
    pub routes : List HttpRoute

  unfoldable pub sent : Conn → Service Descriptor → List HttpRoute → List SvcRoutes
  sent conn service [] = []
  sent conn service (route ∷ routes) =
      record { conn = conn; service = service; routes = route ∷ routes } ∷ []

  -- What the lookup of a service comes to.
  unfoldable pub sent_by : Conn → Option (Service Descriptor) → List SvcRoutes
  unfolding sent
  sent_by conn none = []
  sent_by conn (some service) = sent conn service (extract_http_routes service)

  -- A client without a connection has no goroutines.
  unfoldable pub client_routes :
      (String → Option (Service Descriptor)) → Option Conn → List String → List SvcRoutes
  unfolding sent_by
  client_routes find none infos = []
  client_routes find (some conn) [] = []
  client_routes find (some conn) (info ∷ rest) =
      sent_by conn (find info) ++ client_routes find (some conn) rest

  unfoldable pub all_routes :
      (String → Option (Service Descriptor)) → Dict Conn → Dict (List String) → List SvcRoutes
  unfolding client_routes
  all_routes find conns [] = []
  all_routes find conns ((client, infos) ∷ rest) =
      client_routes find (lookup client conns) infos ++ all_routes find conns rest

  -- The loop of the second phase over the routes of a service, with the routes that are new.
  unfoldable pub register_new :
      Conn → Service Descriptor → List HttpRoute → Mux → Mux × List String × List HttpRoute
  unfolding register_single_route
  register_new conn service [] mux = (mux, [], [])
  register_new conn service (route ∷ rest) mux =
      elim (register_single_route conn service route mux) [
        | none ↦ register_new conn service rest mux
        | some next ↦
            let (end, registered, new_routes) = register_new conn service rest next in
            (end, show route ∷ registered, route ∷ new_routes)
      ]

  unfoldable pub register_collected : List SvcRoutes → Mux → Mux × List String × List HttpRoute
  unfolding register_new
  register_collected [] mux = (mux, [], [])
  register_collected (sr ∷ rest) mux =
      let (own_mux, own, own_routes) = register_new sr.conn sr.service sr.routes mux in
      let (end, registered, new_routes) = register_collected rest own_mux in
      (end, own ++ registered, own_routes ++ new_routes)

  -- The state that registration changes: the mux and `routeRegistry`.
  pub record Routed : Type 0 where
    pub mux : Mux
    pub routes : List HttpRoute

  -- `arrival` is the order in which the channel delivers; `none` is an error.
  unfoldable pub register_dynamic_handlers :
      Bool
      → (String → Option (Service Descriptor))
      → (List SvcRoutes → List SvcRoutes)
      → Dict Conn
      → Dict (List String)
      → Routed
      → Routed × Option (List String)
  unfolding register_collected all_routes
  register_dynamic_handlers initialized find arrival conns services routed =
      let collected = arrival (all_routes find conns services) in
      let (mux, registered, new_routes) = register_collected collected routed.mux in
      if initialized
      then (
        record { mux = mux; routes = routed.routes ++ new_routes },
        some (sort_strings registered),
      )
      else (routed, none)

  -- The end of a rediscovery: the routes of the client are registered again.
  unfoldable pub register_again :
      (String → Option (Service Descriptor)) → Dict Conn → String → List String → Routed → Routed
  unfolding register_connected with_collected
  register_again find conns client infos routed =
      let own = register_client_handlers find conns client infos routed.mux in
      record { mux = own.0; routes = with_collected own.1 routed.routes }

  -- `none` for an error; `find` looks into a registry of proto files.
  unfoldable pub rediscover_and_register_service :
      (p : Protos) {Raw : Type 0}
      → (Raw → Option p.File)
      → (p.Registry → String → Option (Service Descriptor))
      → (Dict p.File → Dict p.File)
      → Dict Conn
      → (Conn → Stream Raw)
      → String
      → Reflected p × Routed
      → Option (Reflected p × Routed)
  unfolding register_again register_file_descriptors discover_single_client
  rediscover_and_register_service p unmarshal find range conns streams client (reflected, routed) =
      elim (discover_single_client p unmarshal conns streams client) [
        | none ↦ none
        | some (services, cache) ↦
            let files = (register_file_descriptors p range cache reflected.files).0.registry in
            some (
              record {
                services = insert client services reflected.services;
                files = files;
                initialized = true;
              },
              register_again (find files) conns client services routed,
            )
      ]
