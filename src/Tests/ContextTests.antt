-- ===== src/Tests/ContextTests.antt =====
-- The values of a request (middleware/request_context.go).

use go_rpc_gateway.Prelude.{
  ◌≡◌, ◌≢◌, refl, none, some, List, [], ◌∷◌, ◌++◌, String, str_eq, eq_iff, if◌then◌else◌, arith,
}
use go_rpc_gateway.RequestContext.Fields.{trace_id, tenant_id, field, metadata_key, same_key}
use go_rpc_gateway.RequestContext.Context.{
  Contextx, Context, World, from_values, get_request_common_meta,
}
use go_rpc_gateway.RequestContext.Metadata.{
  Transport, Library, collect, enrich_context_from_metadata, inject_trace_to_outgoing_context,
}
use go_rpc_gateway.RequestContext.Http.{Request, request_context_middleware}
use go_rpc_gateway.RequestContext.Laws.{setter, field-setter_shared}
use go_rpc_gateway.RequestContext.Hop.{field-hop}
use go_rpc_gateway.RequestContext.Gateway.{field-gateway}

-- A context's values as a function of the key.
abbrev contextx : Contextx
contextx = record {
  Values = String → String;
  with_value = λ key value c other. if str_eq key other then value else c other;
  get_value = λ key c. c key;
  get_value-with_value = λ key other value c. refl;
}

collect-append :
    (key : String) (a b : List (String × String))
    → collect key (a ++ b) ≡ collect key a ++ collect key b
unfolding collect
collect-append key [] b = refl
collect-append key ((k, v) ∷ a) b = ground (arith, collect-append key a b)

no_pairs : (key : String) → collect key [] ≡ []
unfolding collect
no_pairs key = refl

-- Metadata as a list of pairs.
abbrev transport : Transport
transport = record {
  Md = List (String × String);
  empty = [];
  pairs = λ kvs. kvs;
  join = λ a b. a ++ b;
  get = λ md key. collect key md;
  get-empty = λ key. no_pairs key;
  get-pairs = λ key kvs key_low low. refl;
  get-join = collect-append;
}

-- Texts that need no escape.
abbrev library : Library
library = record {
  query_escape = λ s. s;
  query_unescape = λ s. s;
  query_unescape-query_escape = λ s. refl;
  if_empty = λ s t. if str_eq s "" then t else s;
  if_empty_lem = λ s t. refl;
}

abbrev no_values : String → String
no_values key = ""

-- A context without a struct.
abbrev bare : World (String → String)
bare = record { metas = []; ctx = record { values = no_values; meta = none } }

abbrev derived : Context (String → String)
derived = record { values = no_values; meta = some 0 }

-- A context with a struct.
abbrev held : World (String → String)
held = record {
  metas = from_values contextx bare ∷ [];
  ctx = record { values = no_values; meta = some 0 };
}

abbrev acme : String
acme = "acme"

abbrev trace : String
trace = "trace-1"

abbrev request : String
request = "request-1"

field-setter_shared_example :
    field tenant_id (
      get_request_common_meta contextx
        (record { metas = (setter contextx tenant_id acme held).metas; ctx = derived }))
    ≡ acme
field-setter_shared_example =
    field-setter_shared contextx tenant_id acme derived held 0 refl refl (omega arith)

field-hop_example :
    field tenant_id (
      get_request_common_meta contextx (
        enrich_context_from_metadata contextx transport library none trace request
          (inject_trace_to_outgoing_context contextx transport library "en" none
            (setter contextx tenant_id acme held))
          bare))
    ≡ field tenant_id (get_request_common_meta contextx (setter contextx tenant_id acme held))
field-hop_example =
    field-hop contextx transport library tenant_id none trace request "en"
      (setter contextx tenant_id acme held) bare

abbrev other : String
other = "other"

other_present : other ≢ ""
other_present = ground (arith, eq_iff other "")

abbrev http_request : Request
http_request = record {
  attribute = λ f. if same_key f tenant_id then acme else "";
  client_ip = "10.0.0.1";
  user_agent = "curl";
}

trace_present : trace ≢ ""
trace_present = ground (arith, eq_iff trace "")

request_present : request ≢ ""
request_present = ground (arith, eq_iff request "")

-- What the gateway's handler adds before the call.
abbrev annotated : List (String × String)
annotated = ("x-forwarded-host", "shop.example") ∷ []

annotated_trace : collect (metadata_key trace_id) annotated ≡ []
unfolding collect
annotated_trace = refl

-- The trace id that is generated at the gateway reaches the service.
field-gateway_example :
    field trace_id (
      get_request_common_meta contextx (
        enrich_context_from_metadata contextx transport library none "trace-2" "request-2"
          (inject_trace_to_outgoing_context contextx transport library "en"
            (some annotated)
            (request_context_middleware contextx none trace request http_request bare).0)
          bare))
    ≡ trace
field-gateway_example =
    field-gateway contextx transport library trace_id none none trace request "trace-2" "request-2"
      "en" http_request [] annotated bare bare trace_present request_present annotated_trace
