-- ===== src/Discovery/AutoRegister.antt =====
-- cpool/grpc/auto_register.go: `InitConnectionsAndDiscover` and `AutoRegister`, which connect to the
-- configured services, find what they serve, and register their routes.
pub mod Laws
use go_rpc_gateway.Prelude.{
  ℕ, Bool, true, false, Option, none, some, List, [], ◌∷◌, map, length, String,
}
use go_rpc_gateway.Prelude.Dict.{Dict}
use go_rpc_gateway.Discovery.Files.{Protos}
use go_rpc_gateway.Discovery.Reflection.{Stream, Reflected, discover_all_services}
use go_rpc_gateway.Discovery.Routes.{HttpRoute, Service}
use go_rpc_gateway.Discovery.Registration.{ServeMux, SvcRoutes, Routed, register_dynamic_handlers}
use go_rpc_gateway.Discovery.Connections.{GrpcClient, Dialer, Connections, init_all_connections}

pub record AutoRegisterResult : Type 0 where
  pub clients : List String
  pub handlers : List String
  pub total_clients : ℕ
  pub total_handlers : ℕ
  pub skipped_manual : ℕ

abbrev pub names : Dict (Option GrpcClient) → List String
names clients = map (λ (entry : String × Option GrpcClient). entry.0) clients

-- The handlers that are registered; an error is logged, and leaves none.
abbrev pub reported : Option (List String) → List String
reported none = []
reported (some handlers) = handlers

-- What the gateway is given: how it connects, the proto files and how they are read, the mux, what a
-- connection answers, the service of a name, the orders that Go leaves open, of the ranges over the
-- files, of the goroutines, and of the channel, and the names that a race of the first step leaves.
pub record Environment (Conn Certificates KeyPair Descriptor Raw : Type 0) : Type 1 where
  pub dialer : Dialer Conn Certificates KeyPair
  pub protos : Protos
  pub unmarshal : Raw → Option protos.File
  pub serve_mux : ServeMux Conn Descriptor
  pub streams : Conn → Stream Raw
  pub find : protos.Registry → String → Option (Service Descriptor)
  pub range : Dict protos.File → Dict protos.File
  pub order : List String → List String
  pub survives : String → Bool
  pub arrival : List (SvcRoutes serve_mux) → List (SvcRoutes serve_mux)

module _ {Conn Certificates KeyPair Descriptor Raw : Type 0}
    (e : Environment Conn Certificates KeyPair Descriptor Raw) where
  pub record State : Type 0 where
    pub connections : Connections Conn
    pub reflected : Reflected e.protos
    pub routed : Routed e.serve_mux

  -- Without a connected client nothing is discovered.
  unfoldable pub discover_connected_to :
      List String
      → Dict (Option GrpcClient)
      → Connections Conn
      → Reflected e.protos
      → Reflected e.protos
  unfolding discover_all_services
  discover_connected_to [] clients connections reflected = reflected
  discover_connected_to (name ∷ rest) clients connections reflected =
      discover_all_services e.protos e.unmarshal e.range connections.pool e.streams
        (e.order (names clients)) reflected

  unfoldable pub init_connections_and_discover :
      Dict (Option GrpcClient) → State → State × List String
  unfolding init_all_connections discover_connected_to
  init_connections_and_discover clients state =
      let (connections, connected) =
        init_all_connections e.dialer e.survives clients state.connections in
      (
        record state {
          connections = connections;
          reflected = discover_connected_to connected clients connections state.reflected;
        },
        connected,
      )

  unfoldable pub register_connected_to : List String → State → Routed e.serve_mux × List String
  unfolding register_dynamic_handlers
  register_connected_to [] state = (state.routed, [])
  register_connected_to (name ∷ rest) state =
      let end =
        register_dynamic_handlers e.serve_mux state.reflected.initialized
          (e.find state.reflected.files) e.arrival state.connections.pool state.reflected.services
          state.routed in
      (end.0, reported end.1)

  unfoldable pub auto_register : Dict (Option GrpcClient) → State → State × AutoRegisterResult
  unfolding init_connections_and_discover register_connected_to
  auto_register clients state =
      let (now, connected) = init_connections_and_discover clients state in
      let (routed, handlers) = register_connected_to connected now in
      (
        record now { routed = routed },
        record {
          clients = connected;
          handlers = handlers;
          total_clients = length clients;
          total_handlers = length handlers;
          skipped_manual = 0;
        },
      )
