-- ===== src/Discovery/Connections.antt =====
-- cpool/grpc/client.go and cpool/grpc/auto_register.go: the connections to the configured services,
-- in one pool. `Conn` is the type of connections, `Certificates` of what a CA file holds, and
-- `KeyPair` of a certificate with its key.
pub mod Laws
use go_rpc_gateway.Prelude.{
  Bool, true, false, not, any, ◌&&◌, ◌||◌, Option, none, some, List, [], ◌∷◌, String, str_eq,
  if◌then◌else◌,
}
use go_rpc_gateway.Prelude.Dict.{Dict, lookup, insert}
use go_rpc_gateway.GrpcHealth.{HealthChecker, register}
use go_rpc_gateway.Discovery.Reflection.{sort_strings}

pub record GrpcClient : Type 0 where
  pub endpoints : List String
  pub enable_tls : Bool
  pub tls_ca_file : String
  pub tls_cert_file : String
  pub tls_key_file : String

pub record TlsConfig (Certificates KeyPair : Type 0) : Type 0 where
  pub insecure_skip_verify : Bool
  pub root_cas : Option Certificates
  pub certificate : Option KeyPair

pub data Credentials (Certificates KeyPair : Type 0) : Type 0 where
  insecure : Credentials Certificates KeyPair
  tls : TlsConfig Certificates KeyPair → Credentials Certificates KeyPair

-- The files, packages tls, x509 and grpc: a CA file is read and has certificates, a pair of files is
-- loaded, a client is made for an endpoint, and a dial to an endpoint connects.
pub record Dialer (Conn Certificates KeyPair : Type 0) : Type 0 where
  pub ca_file : String → Option Certificates
  pub load_x509_key_pair : String → String → Option KeyPair
  pub new_client : String → Credentials Certificates KeyPair → Option Conn
  pub reachable : String → Bool

abbrev pub is_some {ℓ} : {A : Type ℓ} → Option A → Bool
is_some none = false
is_some (some x) = true

unfoldable pub keep : (String → Bool) → List String → List String
keep test [] = []
keep test (name ∷ rest) = let later = keep test rest in if test name then name ∷ later else later

-- The pool, and the health checker, when there is one.
pub record Connections (Conn : Type 0) : Type 0 where
  pub pool : Dict Conn
  pub checker : Option (HealthChecker Conn)

module _ {Conn Certificates KeyPair : Type 0} (d : Dialer Conn Certificates KeyPair) where
  -- Without certificates the server is not verified.
  unfoldable pub with_ca :
      Option Certificates → TlsConfig Certificates KeyPair → TlsConfig Certificates KeyPair
  with_ca none config = config
  with_ca (some certificates) config = record config {
    root_cas = some certificates;
    insecure_skip_verify = false;
  }

  unfoldable pub build_tls_config : GrpcClient → Credentials Certificates KeyPair
  unfolding with_ca
  build_tls_config client =
      let start : TlsConfig Certificates KeyPair = record {
        insecure_skip_verify = true;
        root_cas = none;
        certificate = none;
      } in
      let trusted =
        if str_eq client.tls_ca_file ""
        then start
        else with_ca (d.ca_file client.tls_ca_file) start in
      if not client.enable_tls
      then insecure
      else tls (
          if str_eq client.tls_cert_file "" || str_eq client.tls_key_file ""
          then trusted
          else record trusted {
            certificate = d.load_x509_key_pair client.tls_cert_file client.tls_key_file;
          })

  -- The connection is stored, after the health checker, when there is one, has it.
  unfoldable pub put_conn : String → String → Conn → Connections Conn → Connections Conn
  unfolding register
  put_conn name endpoint conn connections = record {
    pool = insert name conn connections.pool;
    checker = elim connections.checker [
      | none ↦ none
      | some hc ↦ some (register name (some conn) (d.reachable endpoint) hc)
    ];
  }

  -- Of a client with that endpoint; the second value says whether it is connected.
  unfoldable pub connected_to :
      String → String → Option Conn → Connections Conn → Connections Conn × Bool
  unfolding put_conn
  connected_to name endpoint none connections = (connections, false)
  connected_to name endpoint (some conn) connections =
      (put_conn name endpoint conn connections, true)

  unfoldable pub connect_first :
      String → GrpcClient → List String → Connections Conn → Connections Conn × Bool
  unfolding connected_to
  connect_first name client [] connections = (connections, false)
  connect_first name client (endpoint ∷ rest) connections =
      connected_to name endpoint (d.new_client endpoint (build_tls_config client)) connections

  -- A goroutine; a client that is nil has no connection.
  unfoldable pub connect : String → Option GrpcClient → Connections Conn → Connections Conn × Bool
  unfolding connect_first
  connect name none connections = (connections, false)
  connect name (some client) connections = connect_first name client client.endpoints connections

  unfoldable pub init_by :
      String → Option GrpcClient → Option Conn → Connections Conn → Connections Conn × Bool
  unfolding connect
  init_by name client (some conn) connections = (connections, true)
  init_by name client none connections = connect name client connections

  -- One client: a connection of the pool is kept.
  abbrev pub init_one : String → Option GrpcClient → Connections Conn → Connections Conn × Bool
  init_one name client connections = init_by name client (lookup name connections.pool) connections

  -- The names that are connected, in the order in which they are noted.
  unfoldable pub init_each :
      Dict (Option GrpcClient) → Connections Conn → Connections Conn × List String
  unfolding init_by
  init_each [] connections = (connections, [])
  init_each ((name, client) ∷ rest) connections =
      let now = init_one name client connections in
      let later = init_each rest now.0 in (later.0, if now.1 then name ∷ later.1 else later.1)

  -- A name that is connected at the start is appended without the mutex. Where another client is not
  -- connected then, a goroutine may append at the same time, and one of the two names may be lost.
  unfoldable pub races : Dict (Option GrpcClient) → Connections Conn → Bool
  races clients connections =
      any (λ entry. is_some (lookup entry.0 connections.pool)) clients
      && any (λ entry. not (is_some (lookup entry.0 connections.pool))) clients

  -- `survives` says which names the race leaves, where there is one.
  unfoldable pub init_all_connections :
      (String → Bool) → Dict (Option GrpcClient) → Connections Conn → Connections Conn × List String
  unfolding init_each races keep
  init_all_connections survives clients connections =
      let end = init_each clients connections in
      (end.0, sort_strings (if races clients connections then keep survives end.1 else end.1))

  -- `InitClient`: a client with endpoints gets what the factory makes of the pool's connection, or of
  -- a new one.
  unfoldable pub init_client {ℓ} :
      {T : Type ℓ}
      → (Conn → T)
      → String
      → Option GrpcClient
      → Connections Conn
      → Connections Conn × Option T
  init_client factory name none connections = (connections, none)
  init_client factory name (some client) connections = elim client.endpoints [
    | [] ↦ (connections, none)
    | endpoint ∷ rest ↦ elim (lookup name connections.pool) [
      | some conn ↦ (connections, some (factory conn))
      | none ↦ elim (d.new_client endpoint (build_tls_config client)) [
        | none ↦ (connections, none)
        | some conn ↦ (put_conn name endpoint conn connections, some (factory conn))
      ]
    ]
  ]

-- The first endpoint of each client that has one.
unfoldable pub build_endpoint_map : Dict (Option GrpcClient) → Dict String
build_endpoint_map [] = []
build_endpoint_map ((name, none) ∷ rest) = build_endpoint_map rest
build_endpoint_map ((name, some client) ∷ rest) = elim client.endpoints [
  | [] ↦ build_endpoint_map rest
  | endpoint ∷ others ↦ insert name endpoint (build_endpoint_map rest)
]
