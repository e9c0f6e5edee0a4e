-- ===== src/RequestContext/Http.antt =====
-- middleware/request_context.go: `RequestContextMiddleware`, which fills a request's values in.
use go_rpc_gateway.Prelude.{Option, List, [], ◌∷◌, String}
use go_rpc_gateway.RequestContext.Fields.{RequestCommonMeta, Field}
use go_rpc_gateway.RequestContext.Context.{Contextx, World, with_request_common_meta}
use go_rpc_gateway.RequestContext.Metadata.{
  extract_or_generate_trace_id, extract_or_generate_request_id,
}
use go_rpc_gateway.RequestContext.Setters.{
  build, with_id, with_trace_id, with_request_id, with_user_id, with_domain, with_role_code,
  with_tenant_id, with_tenant_code, with_session_id, with_timezone, with_timestamp, with_signature,
  with_authorization, with_access_key, with_app_id, with_device_id, with_app_version,
  with_ip_address, with_platform_id, with_platform_code, with_region_id, with_region_code,
  with_agent_line_id, with_nonce, with_jti, with_family_id, with_user_agent, with_push_token,
  with_token, with_forwarded_host,
}

-- What the middleware reads of a request. `attribute` is `gccommon.ExtractAttribute` at the sources
-- that are configured for a field, `client_ip` is `netx.GetClientIP`.
pub record Request : Type 0 where
  pub attribute : Field → String
  pub client_ip : String
  pub user_agent : String

-- The fields that the struct's literal leaves out are empty.
unfoldable pub http_meta : Option String → String → String → Request → RequestCommonMeta
unfolding extract_or_generate_trace_id extract_or_generate_request_id
http_meta span fresh_trace fresh_request r = record {
  id = r.attribute Field.id;
  trace_id = extract_or_generate_trace_id span fresh_trace (r.attribute Field.trace_id);
  request_id = extract_or_generate_request_id fresh_request (r.attribute Field.request_id);
  user_id = r.attribute Field.user_id;
  user_name = "";
  domain = r.attribute Field.domain;
  role_code = r.attribute Field.role_code;
  tenant_id = r.attribute Field.tenant_id;
  tenant_code = r.attribute Field.tenant_code;
  session_id = r.attribute Field.session_id;
  timezone = r.attribute Field.timezone;
  timestamp = r.attribute Field.timestamp;
  signature = r.attribute Field.signature;
  authorization = r.attribute Field.authorization;
  access_key = r.attribute Field.access_key;
  app_id = r.attribute Field.app_id;
  device_id = r.attribute Field.device_id;
  app_version = r.attribute Field.app_version;
  ip_address = r.client_ip;
  platform_id = r.attribute Field.platform_id;
  platform_code = r.attribute Field.platform_code;
  region_id = r.attribute Field.region_id;
  region_code = r.attribute Field.region_code;
  agent_line_id = r.attribute Field.agent_line_id;
  nonce = r.attribute Field.nonce;
  jti = r.attribute Field.jti;
  family_id = r.attribute Field.family_id;
  x_ns_id = "";
  user_agent = r.user_agent;
  push_token = r.attribute Field.push_token;
  token = r.attribute Field.token;
  accept_language = "";
  forwarded_host = r.attribute Field.forwarded_host;
}

module _ (x : Contextx) where
  -- The context that the next handler gets, and the headers that are set on the answer.
  unfoldable pub request_context_middleware :
      Option String
      → String
      → String
      → Request
      → World x.Values
      → World x.Values × List (String × String)
  unfolding http_meta
  request_context_middleware span fresh_trace fresh_request r w =
      let m = http_meta span fresh_trace fresh_request r in
      let w' =
        build x
          (with_id x m.id
            ∷ with_trace_id x m.trace_id
            ∷ with_request_id x m.request_id
            ∷ with_user_id x m.user_id
            ∷ with_domain x m.domain
            ∷ with_role_code x m.role_code
            ∷ with_tenant_id x m.tenant_id
            ∷ with_tenant_code x m.tenant_code
            ∷ with_authorization x m.authorization
            ∷ with_session_id x m.session_id
            ∷ with_timezone x m.timezone
            ∷ with_ip_address x m.ip_address
            ∷ with_app_id x m.app_id
            ∷ with_device_id x m.device_id
            ∷ with_app_version x m.app_version
            ∷ with_platform_id x m.platform_id
            ∷ with_platform_code x m.platform_code
            ∷ with_region_id x m.region_id
            ∷ with_region_code x m.region_code
            ∷ with_agent_line_id x m.agent_line_id
            ∷ with_nonce x m.nonce
            ∷ with_jti x m.jti
            ∷ with_family_id x m.family_id
            ∷ with_user_agent x m.user_agent
            ∷ with_push_token x m.push_token
            ∷ with_token x m.token
            ∷ with_timestamp x m.timestamp
            ∷ with_signature x m.signature
            ∷ with_access_key x m.access_key
            ∷ with_forwarded_host x m.forwarded_host
            ∷ [])
          w in
      (
        with_request_common_meta x m w',
        ("X-Trace-Id", m.trace_id) ∷ ("X-Request-Id", m.request_id) ∷ [],
      )
