-- ===== src/RequestContext/Gateway.antt =====
-- From an HTTP request at the gateway to the service that it calls: middleware/request_context.go's
-- HTTP middleware, its client interceptor and its server interceptor.
use go_rpc_gateway.Prelude.{
  ◌≡◌, ◌≢◌, refl, some, Option, List, String, str_eq, eq_iff, if◌then◌else◌, arith, ap, ◌∙◌,
}
use go_rpc_gateway.RequestContext.Fields.{
  Field, id, trace_id, request_id, user_id, user_name, domain, role_code, tenant_id, tenant_code,
  session_id, timezone, timestamp, signature, authorization, access_key, app_id, device_id,
  app_version, ip_address, platform_id, platform_code, region_id, region_code, agent_line_id, nonce,
  jti, family_id, x_ns_id, user_agent, push_token, token, accept_language, forwarded_host, field,
  metadata_key,
}
use go_rpc_gateway.RequestContext.Context.{Contextx, World, get_request_common_meta}
use go_rpc_gateway.RequestContext.Metadata.{
  Transport, Library, enrich_context_from_metadata, inject_trace_to_outgoing_context,
  extract_or_generate_trace_id, extract_or_generate_request_id,
}
use go_rpc_gateway.RequestContext.Http.{Request, http_meta, request_context_middleware}
use go_rpc_gateway.RequestContext.Hop.{arrives, generated, first_of, field-hop_joined, stored}

-- What a service gets of a request, of each field. `trace` and `request` replace ids that the
-- request does not have.
abbrev pub from_request : Field → String → String → String → Request → String
from_request id trace request language r = r.attribute id
from_request trace_id trace request language r =
    if str_eq (r.attribute trace_id) "" then trace else r.attribute trace_id
from_request request_id trace request language r =
    if str_eq (r.attribute request_id) "" then request else r.attribute request_id
from_request user_id trace request language r = r.attribute user_id
from_request user_name trace request language r = ""
from_request domain trace request language r = r.attribute domain
from_request role_code trace request language r = r.attribute role_code
from_request tenant_id trace request language r = r.attribute tenant_id
from_request tenant_code trace request language r = r.attribute tenant_code
from_request session_id trace request language r = r.attribute session_id
from_request timezone trace request language r = r.attribute timezone
from_request timestamp trace request language r = r.attribute timestamp
from_request signature trace request language r = r.attribute signature
from_request authorization trace request language r = r.attribute authorization
from_request access_key trace request language r = r.attribute access_key
from_request app_id trace request language r = r.attribute app_id
from_request device_id trace request language r = r.attribute device_id
from_request app_version trace request language r = r.attribute app_version
from_request ip_address trace request language r = r.client_ip
from_request platform_id trace request language r = r.attribute platform_id
from_request platform_code trace request language r = r.attribute platform_code
from_request region_id trace request language r = r.attribute region_id
from_request region_code trace request language r = r.attribute region_code
from_request agent_line_id trace request language r = r.attribute agent_line_id
from_request nonce trace request language r = r.attribute nonce
from_request jti trace request language r = r.attribute jti
from_request family_id trace request language r = r.attribute family_id
from_request x_ns_id trace request language r = ""
from_request user_agent trace request language r = r.user_agent
from_request push_token trace request language r = r.attribute push_token
from_request token trace request language r = r.attribute token
from_request accept_language trace request language r = language
from_request forwarded_host trace request language r = ""

arrives-http_meta :
    (f : Field) (span : Option String) (trace request fresh_trace fresh_request language : String)
    (r : Request)
    → generated span trace ≢ ""
    → request ≢ ""
    → arrives f fresh_trace fresh_request language (http_meta span trace request r)
      ≡ from_request f (generated span trace) request language r
unfolding http_meta extract_or_generate_trace_id extract_or_generate_request_id
arrives-http_meta id span trace request fresh_trace fresh_request language r p q = refl
arrives-http_meta trace_id span trace request fresh_trace fresh_request language r p q =
    ground (arith, p, q, eq_iff (generated span trace) "", eq_iff (r.attribute trace_id) "")
arrives-http_meta request_id span trace request fresh_trace fresh_request language r p q =
    ground (arith, q, eq_iff request "", eq_iff (r.attribute request_id) "")
arrives-http_meta user_id span trace request fresh_trace fresh_request language r p q = refl
arrives-http_meta user_name span trace request fresh_trace fresh_request language r p q = refl
arrives-http_meta domain span trace request fresh_trace fresh_request language r p q = refl
arrives-http_meta role_code span trace request fresh_trace fresh_request language r p q = refl
arrives-http_meta tenant_id span trace request fresh_trace fresh_request language r p q = refl
arrives-http_meta tenant_code span trace request fresh_trace fresh_request language r p q = refl
arrives-http_meta session_id span trace request fresh_trace fresh_request language r p q = refl
arrives-http_meta timezone span trace request fresh_trace fresh_request language r p q = refl
arrives-http_meta timestamp span trace request fresh_trace fresh_request language r p q = refl
arrives-http_meta signature span trace request fresh_trace fresh_request language r p q = refl
arrives-http_meta authorization span trace request fresh_trace fresh_request language r p q = refl
arrives-http_meta access_key span trace request fresh_trace fresh_request language r p q = refl
arrives-http_meta app_id span trace request fresh_trace fresh_request language r p q = refl
arrives-http_meta device_id span trace request fresh_trace fresh_request language r p q = refl
arrives-http_meta app_version span trace request fresh_trace fresh_request language r p q = refl
arrives-http_meta ip_address span trace request fresh_trace fresh_request language r p q = refl
arrives-http_meta platform_id span trace request fresh_trace fresh_request language r p q = refl
arrives-http_meta platform_code span trace request fresh_trace fresh_request language r p q = refl
arrives-http_meta region_id span trace request fresh_trace fresh_request language r p q = refl
arrives-http_meta region_code span trace request fresh_trace fresh_request language r p q = refl
arrives-http_meta agent_line_id span trace request fresh_trace fresh_request language r p q = refl
arrives-http_meta nonce span trace request fresh_trace fresh_request language r p q = refl
arrives-http_meta jti span trace request fresh_trace fresh_request language r p q = refl
arrives-http_meta family_id span trace request fresh_trace fresh_request language r p q = refl
arrives-http_meta x_ns_id span trace request fresh_trace fresh_request language r p q = refl
arrives-http_meta user_agent span trace request fresh_trace fresh_request language r p q = refl
arrives-http_meta push_token span trace request fresh_trace fresh_request language r p q = refl
arrives-http_meta token span trace request fresh_trace fresh_request language r p q = refl
arrives-http_meta accept_language span trace request fresh_trace fresh_request language r p q = refl
arrives-http_meta forwarded_host span trace request fresh_trace fresh_request language r p q = refl

module _ (x : Contextx) (t : Transport) (l : Library) where
  middleware_stored :
      (span : Option String) (trace request : String) (r : Request) (w : World x.Values)
      → get_request_common_meta x (request_context_middleware x span trace request r w).0
        ≡ http_meta span trace request r
  unfolding request_context_middleware
  middleware_stored span trace request r w = stored x _ _

  -- A service that the gateway calls finds under the key of a field, after a call whose outgoing
  -- metadata are `old`, the first value that these hold there already, with an empty trace or request
  -- id replaced at the service and the user's name unescaped. Where they hold none, the service gets of
  -- the HTTP request the attribute that is configured for the field, the client's address or the user
  -- agent; one trace id and one request id, those of the request or else those generated at the
  -- gateway, which are not empty; the language of the gateway's i18n context; and nothing for the
  -- user's name, the namespace and the forwarded host.
  pub field-gateway :
      (f : Field) (span span' : Option String)
      (trace request fresh_trace fresh_request language : String) (r : Request)
      (values : List String) (old : t.Md) (gateway service : World x.Values)
      → generated span trace ≢ ""
      → request ≢ ""
      → t.get old (metadata_key f) ≡ values
      → field f (
          get_request_common_meta x (
            enrich_context_from_metadata x t l span' fresh_trace fresh_request
              (inject_trace_to_outgoing_context x t l language
                (some old)
                (request_context_middleware x span trace request r gateway).0)
              service))
        ≡ first_of x t l f values
            (generated span' fresh_trace)
            fresh_request
            (from_request f (generated span trace) request language r)
  field-gateway f span span' trace request fresh_trace fresh_request language r values old gateway
        service p q has =
      field-hop_joined x t l f span' fresh_trace fresh_request language values old
        (request_context_middleware x span trace request r gateway).0 service has
      ∙ ap (first_of x t l f values (generated span' fresh_trace) fresh_request) (
          ap (arrives f (generated span' fresh_trace) fresh_request language)
            (middleware_stored span trace request r gateway)
          ∙ arrives-http_meta f span trace request (generated span' fresh_trace) fresh_request
              language r p q)
