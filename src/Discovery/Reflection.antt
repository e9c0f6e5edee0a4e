-- ===== src/Discovery/Reflection.antt =====
-- cpool/grpc/auto_register.go: discovery by gRPC server reflection, of the services of one server and
-- of all, with the proto files that come with them. A stream is what its calls return.
pub mod Sorting
pub mod Laws
pub mod Found
use Prim.Native.String.{compare}
use text.Mathlib.Text.{is_le}
use go_rpc_gateway.Prelude.{
  ℕ, ◌+◌, Bool, true, false, not, Option, none, some, List, [], ◌∷◌, String, str_eq, starts_with,
  if◌then◌else◌,
}
use go_rpc_gateway.Prelude.Dict.{Dict, lookup, insert}
use go_rpc_gateway.Discovery.Files.{Protos, Progress, register_file_descriptors}

-- `sort.Strings`: the result of a sort by the bytes is the same for every algorithm.
insert_string : String → List String → List String
insert_string s [] = s ∷ []
insert_string s (t ∷ ts) = if is_le (compare s t) then s ∷ t ∷ ts else t ∷ insert_string s ts

unfoldable pub sort_strings : List String → List String
unfolding insert_string
sort_strings [] = []
sort_strings (s ∷ ss) = insert_string s (sort_strings ss)

-- A `map[string]bool`, which answers false for a missing key.
unfoldable pub has_failed : Dict Bool → String → Bool
has_failed failures name = elim (lookup name failures) [ none ↦ false | some b ↦ b ]

-- The names that are not of the reflection service itself.
unfoldable pub service_names : List String → List String
service_names [] = []
service_names (name ∷ rest) =
    let later = service_names rest in
    if starts_with name "grpc.reflection" then later else name ∷ later

unfoldable pub without_failures : Dict Bool → List String → List String
unfolding has_failed
without_failures failures [] = []
without_failures failures (name ∷ rest) =
    let later = without_failures failures rest in
    if has_failed failures name then later else name ∷ later

-- A `ServerReflectionResponse`; `Raw` is the type of a serialised file.
pub data Response (Raw : Type 0) : Type 0 where
  list_services : List String → Response Raw
  file_descriptors : List Raw → Response Raw
  another : Response Raw

-- Whether the stream is made and takes the first request, the first answer, which requests for a
-- symbol it takes, and the further answers in their order, with `none` for an error.
pub record Stream (Raw : Type 0) : Type 0 where
  pub opens : Bool
  pub takes_list : Bool
  pub listed : Option (Response Raw)
  pub takes : String → Bool
  pub answers : List (Option (Response Raw))

unfoldable pub send_each : (String → Bool) → List String → Dict Bool → Dict Bool
send_each takes [] failures = failures
send_each takes (service ∷ rest) failures =
    send_each takes rest (if takes service then failures else insert service true failures)

-- What the second loop keeps: the answers to come, the failures and the files.
pub record Receiving (p : Protos) (Raw : Type 0) : Type 0 where
  pub answers : List (Option (Response Raw))
  pub failures : Dict Bool
  pub cache : Dict p.File

module _ (p : Protos) where
  open p use {File, Registry, name}

  -- A file without a name, or of a name that is known, is not taken.
  unfoldable pub add_file : Option File → Dict File → Dict File
  add_file none cache = cache
  add_file (some f) cache =
      if str_eq (name f) ""
      then cache
      else elim (lookup (name f) cache) [ none ↦ insert (name f) f cache | some g ↦ cache ]

  -- `for k, v := range fileCache { allFileDescriptors[k] = v }`
  unfoldable pub merge : Dict File → Dict File → Dict File
  merge [] all_files = all_files
  merge ((path, f) ∷ rest) all_files = merge rest (insert path f all_files)

  -- What a goroutine adds under the lock; after an error nothing.
  unfoldable pub add_discovered :
      String
      → Option (List String × Dict File)
      → Dict (List String) × Dict File
      → Dict (List String) × Dict File
  unfolding merge
  add_discovered client none found = found
  add_discovered client (some (services, cache)) found =
      (insert client services found.0, merge cache found.1)

  -- The two registries of `reflectionRegistry`: the services, and the proto files.
  pub record Reflected : Type 0 where
    pub services : Dict (List String)
    pub files : Registry
    pub initialized : Bool

module _ (p : Protos) {Raw : Type 0} (unmarshal : Raw → Option p.File) where
  open p use {File, Registry, name}

  unfoldable pub add_files : List Raw → Dict File → Dict File
  unfolding add_file
  add_files [] cache = cache
  add_files (raw ∷ rest) cache = add_files rest (add_file p (unmarshal raw) cache)

  -- With whether there is no error.
  unfoldable pub parse_file_descriptor_response : Response Raw → Dict File → Dict File × Bool
  unfolding add_files
  parse_file_descriptor_response (file_descriptors []) cache = (cache, false)
  parse_file_descriptor_response (file_descriptors (raw ∷ rest)) cache =
      (add_files (raw ∷ rest) cache, true)
  parse_file_descriptor_response (list_services names) cache = (cache, false)
  parse_file_descriptor_response another cache = (cache, false)

  unfoldable pub receive : String → Receiving p Raw → Receiving p Raw
  unfolding parse_file_descriptor_response
  receive service state = elim state.answers [
    | [] ↦ record state { failures = insert service true state.failures }
    | none ∷ rest ↦ record state { answers = rest; failures = insert service true state.failures }
    | some response ∷ rest ↦
        let parsed = parse_file_descriptor_response response state.cache in
        record {
          answers = rest;
          failures = if parsed.1 then state.failures else insert service true state.failures;
          cache = parsed.0;
        }
  ]

  unfoldable pub receive_each : List String → Receiving p Raw → Receiving p Raw
  unfolding has_failed receive
  receive_each [] state = state
  receive_each (service ∷ rest) state =
      receive_each rest (if has_failed state.failures service then state else receive service state)

  unfoldable pub discover_listed : Stream Raw → List String → List String × Dict File
  unfolding send_each receive_each without_failures
  discover_listed stream [] = ([], [])
  discover_listed stream (service ∷ rest) =
      let names = service ∷ rest in
      let end = receive_each names (record {
        answers = stream.answers;
        failures = send_each stream.takes names [];
        cache = [];
      }) in
      (without_failures end.failures names, end.cache)

  -- What the answer to the first request leads to; `none` for an error.
  unfoldable pub discover_answered :
      Stream Raw → Option (Response Raw) → Option (List String × Dict File)
  unfolding discover_listed service_names sort_strings
  discover_answered stream none = none
  discover_answered stream (some (list_services names)) =
      some (discover_listed stream (sort_strings (service_names names)))
  discover_answered stream (some (file_descriptors raws)) = none
  discover_answered stream (some another) = none

  unfoldable pub discover_services : Stream Raw → Option (List String × Dict File)
  unfolding discover_answered
  discover_services stream =
      if not stream.opens
      then none
      else if not stream.takes_list
      then none
      else discover_answered stream stream.listed

  module _ {Conn : Type 0} where
    -- A client without a connection is an error; `streams` is what a connection answers.
    unfoldable pub discover_connected :
        (Conn → Stream Raw) → Option Conn → Option (List String × Dict File)
    unfolding discover_services
    discover_connected streams none = none
    discover_connected streams (some conn) = discover_services (streams conn)

    unfoldable pub discover_single_client :
        Dict Conn → (Conn → Stream Raw) → String → Option (List String × Dict File)
    unfolding discover_connected
    discover_single_client conns streams client = discover_connected streams (lookup client conns)

    -- The goroutines of the clients, each from its discovery to its end, in the order in which they
    -- take the lock.
    unfoldable pub discover_each :
        Dict Conn
        → (Conn → Stream Raw)
        → List String
        → Dict (List String) × Dict File
        → Dict (List String) × Dict File
    unfolding discover_single_client add_discovered
    discover_each conns streams [] found = found
    discover_each conns streams (client ∷ rest) found =
        discover_each conns streams rest
          (add_discovered p client (discover_single_client conns streams client) found)

    unfoldable pub discover_all_services :
        (Dict File → Dict File)
        → Dict Conn
        → (Conn → Stream Raw)
        → List String
        → Reflected p
        → Reflected p
    unfolding discover_each register_file_descriptors
    discover_all_services range conns streams clients reflected =
        let found = discover_each conns streams clients ([], []) in
        let end = register_file_descriptors p range found.1 reflected.files in
        record { services = found.0; files = end.0.registry; initialized = true }
