-- ===== src/Tests/DiscoveryTests.antt =====
-- cpool/grpc/auto_register.go and cpool/grpc/client.go: a server with one service, whose proto file
-- imports another that it sends later.
use go_rpc_gateway.Prelude.{
  ℕ, ◌≡◌, ◌≢◌, ◌↔◌, inl, inr, ◌∙◌, refl, sym, ap, Bool, true, false, not, ◌&&◌, ◌||◌, Option, none,
  some, List, [], ◌∷◌, ◌++◌, map, all, any, All, String, str_eq, if◌then◌else◌, arith,
}
use go_rpc_gateway.Prelude.Dict.{Dict, lookup, insert}
use go_rpc_gateway.Discovery.Files.{In, Protos, register_file_descriptors}
use go_rpc_gateway.Discovery.Files.Resolution.{Ranges, Resolves}
use go_rpc_gateway.Discovery.Reflection.{
  list_services, file_descriptors, Stream, discover_each, Reflected, discover_all_services,
  sort_strings,
}
use go_rpc_gateway.Discovery.Reflection.Found.{finds, is_some-discover_each}
use go_rpc_gateway.Discovery.Files.Laws.{is_registered-register_file_descriptors}
use go_rpc_gateway.Discovery.Routes.{
  HttpRoute, get, post, Service, extract_http_routes, show, routes_of, method_by_name,
}
use go_rpc_gateway.Discovery.Routes.Laws.{
  Registrable, bare, has_space, extract_http_routes-Registrable,
}
use go_rpc_gateway.Discovery.Registration.{ServeMux, client_routes, Routed, register_again}
use go_rpc_gateway.Discovery.Registration.Laws.{Parses, accepted, routes_in}
use go_rpc_gateway.Discovery.Registration.Recovery.{register_again-bare}
use go_rpc_gateway.Discovery.Connections.{
  GrpcClient, Dialer, Connections, build_tls_config, init_all_connections, is_some, races,
}
use go_rpc_gateway.Discovery.Connections.Laws.{
  is_client, skips_verify, any-init_all_connections, build_tls_config-verifies_iff,
}
use go_rpc_gateway.Discovery.AutoRegister.{
  Environment, State, init_connections_and_discover, auto_register,
}
use go_rpc_gateway.Discovery.AutoRegister.Laws.{is_connected, offers_parsed, auto_register-added}

-- A file is its name and its imports.
abbrev File : Type 0
File = String × List String

abbrev known : List String → String → Bool
known r path = any (λ (n : String). str_eq n path) r

abbrev able : File → List String → Bool
able f r = not (known r f.0) && all (known r) f.1 && true

register_iff :
    (f : File) (r : List String)
    → ((if able f r then some (f.0 ∷ r) else none) ≢ none) ↔ (able f r ≡ true)
register_iff f r = ground arith

added :
    (b : Bool) (name : String) (r r' : List String) (path : String)
    → (if b then some (name ∷ r) else none) ≡ some r'
    → known r' path ≡ (str_eq name path || known r path)
added true name r r' path h =
    ap (λ (o : Option (List String)). elim o [ none ↦ true | some x ↦ known x path ]) (sym h)
added false name r r' path h = absurd (ground (arith, h))

abbrev protos : Protos
protos = record {
  File = File;
  Registry = List String;
  is_registered = known;
  register = λ f r. if able f r then some (f.0 ∷ r) else none;
  name = λ f. f.0;
  imports = λ f. f.1;
  is_sound = λ f. true;
  clashes = λ r f. false;
  shares = λ f g. false;
  register-some_iff = register_iff;
  clashes-register = λ f g r r' h. refl;
  is_registered-register = λ f r r' path h. added (able f r) f.0 r r' path h;
}

same_order : Ranges protos (λ files. files)
same_order = record { In-range = λ files n f. (λ m. m, λ m. m); length-range = λ files. refl }

-- The server sends the file of its service before the file that it imports.
abbrev stream : Stream File
stream = record {
  opens = true;
  takes_list = true;
  listed = some (list_services ("grpc.reflection.v1.ServerReflection" ∷ "users.Users" ∷ []));
  takes = λ name. true;
  answers = some (file_descriptors (("users", "base" ∷ []) ∷ ("base", []) ∷ [])) ∷ [];
}

abbrev unmarshal : File → Option File
unmarshal f = some f

abbrev pool : Dict String
pool = ("users", "10.0.0.1:9000") ∷ []

abbrev streams : String → Stream File
streams conn = stream

abbrev nothing : Reflected protos
nothing = record { services = []; files = []; initialized = false }

abbrev clients_list : List String
clients_list = "users" ∷ "orders" ∷ []

abbrev found_files : Dict File
found_files = ("users", ("users", "base" ∷ [])) ∷ ("base", ("base", [])) ∷ []

found_named : (n : String) (f : File) → In n f found_files → f.0 ≡ n
found_named n f m = elim m [
  | inl here ↦ sym (ap (λ (e : File). e.0) here.1) ∙ here.0
  | inr later ↦ elim later [
    | inl here ↦ sym (ap (λ (e : File). e.0) here.1) ∙ here.0
    | inr none_left ↦ absurd none_left
  ]
]

is_registered-register_file_descriptors_example :
    (known (register_file_descriptors protos (λ files. files) found_files []).0.registry "users"
      ≡ true)
    ↔ Resolves protos found_files [] "users"
is_registered-register_file_descriptors_example =
    is_registered-register_file_descriptors protos (λ files. files) same_order found_files []
      found_named (λ n m f g i j other. refl) (λ n f i fresh. refl) "users"

abbrev listed_names : List String
listed_names = "grpc.reflection.v1.ServerReflection" ∷ "users.Users" ∷ []

abbrev batches : List (File × List File)
batches = (("users", "base" ∷ []), (("base", []) ∷ [])) ∷ []

is_some-discover_each_example :
    is_some (lookup "base" (discover_each protos unmarshal pool streams clients_list ([], [])).1)
    ≡ any (finds protos unmarshal pool streams "base") clients_list
is_some-discover_each_example =
    is_some-discover_each protos unmarshal pool streams "base" clients_list

-- It is registered, though it came first.
users_registered :
    known
      (discover_all_services protos unmarshal
        (λ files. files)
        pool
        streams
        clients_list
        nothing).files
      "users"
    ≡ true
unfolding discover_all_services lookup insert
users_registered = refl

-- A service whose method has a route and a second one.
abbrev users : Service ℕ
users = record {
  full_name = "users.Users";
  methods =
      record {
        name = "Get";
        http = some (record {
          pattern = some (get "/users/{id}");
          body = "";
          additional_bindings = record { pattern = some (post "/users:get"); body = "*" } ∷ [];
        });
        input = 1;
        output = 2;
      }
      ∷ [];
}

extract_http_routes-Registrable_example : All (Registrable users) (extract_http_routes users)
extract_http_routes-Registrable_example = extract_http_routes-Registrable users

abbrev parses : String → Bool
parses path = not (str_eq path "/users:get")

abbrev mux : ServeMux String ℕ
mux = record {
  Mux = List String;
  handle_path = λ method path handler m. if parses path then some (path ∷ m) else none;
}

mux-Parses : Parses mux parses
mux-Parses = record { handle_path-some_iff = λ method path handler m. ground arith }

abbrev find : String → Option (Service ℕ)
find name = if str_eq name "users.Users" then some users else none

abbrev started : Routed mux
started = record { mux = []; routes = [] }

register_again-bare_example :
    (register_again mux find pool "users" ("users.Users" ∷ []) started).routes
    ≡ []
      ++ map bare (
          accepted parses
            (routes_in mux (client_routes mux find (lookup "users" pool) ("users.Users" ∷ []))))
unfolding client_routes lookup routes_of has_space
register_again-bare_example =
    register_again-bare mux parses mux-Parses find pool "users" ("users.Users" ∷ []) started
      (refl, (refl, tt))

abbrev dialer : Dialer String String String
dialer = record {
  ca_file = λ path. if str_eq path "ca.pem" then some "ca" else none;
  load_x509_key_pair = λ cert key. none;
  new_client = λ endpoint credentials. some endpoint;
  reachable = λ endpoint. true;
}

abbrev users_client : GrpcClient
users_client = record {
  endpoints = "10.0.0.1:9000" ∷ [];
  enable_tls = true;
  tls_ca_file = "ca.pem";
  tls_cert_file = "";
  tls_key_file = "";
}

abbrev clients : Dict (Option GrpcClient)
clients = ("users", some users_client) ∷ ("orders", none) ∷ []

abbrev unconnected : Connections String
unconnected = record { pool = []; checker = none }

-- Of a connected client and another, the race loses the second.
abbrev one_connected : Connections String
one_connected = record { pool = ("orders", "10.0.0.2:9000") ∷ []; checker = none }

abbrev only_orders : String → Bool
only_orders name = str_eq name "orders"

any-init_all_connections_example :
    (let end = init_all_connections dialer only_orders clients one_connected in
      any (str_eq "users") end.1 ≡ (
        (is_client "users" clients && is_some (lookup "users" end.0.pool))
        && (not (races dialer clients one_connected) || only_orders "users")))
any-init_all_connections_example =
    any-init_all_connections dialer only_orders clients one_connected "users"

name_lost : (init_all_connections dialer only_orders clients one_connected).1 ≡ "orders" ∷ []
unfolding init_all_connections races lookup insert sort_strings
name_lost = refl

build_tls_config-verifies_iff_example :
    (skips_verify dialer (build_tls_config dialer users_client) ≡ false) ↔ (
      (true ≡ true)
      × (users_client.tls_ca_file ≢ "")
      × (dialer.ca_file users_client.tls_ca_file ≢ none))
build_tls_config-verifies_iff_example = build_tls_config-verifies_iff dialer users_client

abbrev environment : Environment String String String ℕ File
environment = record {
  dialer = dialer;
  protos = protos;
  unmarshal = unmarshal;
  serve_mux = mux;
  streams = streams;
  find = λ files name. find name;
  range = λ files. files;
  order = λ names. names;
  survives = λ name. true;
  arrival = λ collected. collected;
}

abbrev state : State environment
state = record { connections = unconnected; reflected = nothing; routed = started }

auto_register-added_example :
    (let now = (init_connections_and_discover environment clients state).0 in
      let connected = (init_connections_and_discover environment clients state).1 in
      let end = auto_register environment clients state in
      (added : List HttpRoute) × (end.0.routed.routes ≡ [] ++ added)
      × (end.1.handlers ≡ sort_strings (map show added))
      × ((p : HttpRoute → Bool)
          → any p added ≡ (
              is_connected environment parses mux-Parses (λ P collected. (λ h. h, λ h. h)) connected
              && offers_parsed environment parses mux-Parses
                  (λ P collected. (λ h. h, λ h. h))
                  p
                  now)))
auto_register-added_example =
    auto_register-added environment parses mux-Parses (λ P collected. (λ h. h, λ h. h)) clients
      state

-- It adds the route that the mux accepts, and reports it.
handlers_reported : (auto_register environment clients state).1.handlers ≡ "GET /users/{id}" ∷ []
unfolding auto_register lookup insert routes_of method_by_name show
handlers_reported = refl
