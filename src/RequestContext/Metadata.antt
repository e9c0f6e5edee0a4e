-- ===== src/RequestContext/Metadata.antt =====
-- middleware/request_context.go: a request's values as gRPC metadata, on the side of the server and
-- on that of the client.
use Prim.Native.Char.{code}
use Prim.Native.String.{[], ◌∷◌}
use go_rpc_gateway.Prelude.{
  ◌≡◌, Bool, true, not, ◌&&◌, Option, none, some, List, [], ◌∷◌, ◌++◌, all, String, str_eq, leb,
  if◌then◌else◌,
}
use go_rpc_gateway.RequestContext.Fields.{RequestCommonMeta, Field, metadata_key}
use go_rpc_gateway.RequestContext.Context.{
  Contextx, World, get_request_common_meta, with_request_common_meta,
}
use go_rpc_gateway.RequestContext.Setters.{
  build, with_id, with_trace_id, with_request_id, with_user_id, with_user_name, with_domain,
  with_role_code, with_tenant_id, with_tenant_code, with_session_id, with_timezone, with_timestamp,
  with_signature, with_authorization, with_access_key, with_app_id, with_device_id,
  with_app_version, with_ip_address, with_platform_id, with_platform_code, with_region_id,
  with_region_code, with_agent_line_id, with_nonce, with_jti, with_family_id, with_x_ns_id,
  with_user_agent, with_push_token, with_token, with_accept_language, with_forwarded_host,
}

-- No letter is a capital.
abbrev pub is_lower : String → Bool
is_lower [] = true
is_lower (ch ∷ s) = not (leb 65 (code ch) && leb (code ch) 90) && is_lower s

-- The values of a key among pairs, in their order.
unfoldable pub collect : String → List (String × String) → List String
collect key [] = []
collect key ((k, v) ∷ rest) =
    let later = collect key rest in if str_eq k key then v ∷ later else later

-- Package metadata of grpc: under a key in lower case, `Pairs` holds the values of the pairs in
-- their order, and `Join` those of the first metadata before those of the second.
pub record Transport : Type 1 where
  pub Md : Type 0
  pub empty : Md
  pub pairs : List (String × String) → Md
  pub join : Md → Md → Md
  pub get : Md → String → List String
  pub get-empty : (key : String) → get empty key ≡ []
  pub get-pairs :
      (key : String) (kvs : List (String × String))
      → is_lower key ≡ true
      → all (λ kv. is_lower kv.0) kvs ≡ true
      → get (pairs kvs) key ≡ collect key kvs
  pub get-join : (key : String) (a b : Md) → get (join a b) key ≡ get a key ++ get b key

-- What the code calls of other packages. `query_unescape` is `url.QueryUnescape` with the empty
-- text for an error, `if_empty` is `mathx.IfEmpty`.
pub record Library : Type 0 where
  pub query_escape : String → String
  pub query_unescape : String → String
  pub query_unescape-query_escape : (s : String) → query_unescape (query_escape s) ≡ s
  pub if_empty : String → String → String
  pub if_empty_lem : (s t : String) → if_empty s t ≡ (if str_eq s "" then t else s)

-- `span` is the trace id of a valid OpenTelemetry span, `fresh` what is generated.
unfoldable pub extract_or_generate_trace_id : Option String → String → String → String
extract_or_generate_trace_id span fresh trace_id =
    if str_eq trace_id "" then elim span [ some id ↦ id | none ↦ fresh ] else trace_id

unfoldable pub extract_or_generate_request_id : String → String → String
extract_or_generate_request_id fresh request_id = if str_eq request_id "" then fresh else request_id

abbrev pub first : List String → String
first [] = ""
first (v ∷ vs) = v

module _ (t : Transport) where
  abbrev pub first_metadata_value : t.Md → String → String
  first_metadata_value md key = first (t.get md key)

module _ (t : Transport) (l : Library) where
  -- The struct that `enrichContextFromMetadata` stores.
  unfoldable pub incoming_meta : String → String → t.Md → RequestCommonMeta
  incoming_meta trace request md = record {
    id = first_metadata_value t md (metadata_key Field.id);
    trace_id = trace;
    request_id = request;
    authorization = first_metadata_value t md (metadata_key Field.authorization);
    user_id = first_metadata_value t md (metadata_key Field.user_id);
    user_name = l.query_unescape (first_metadata_value t md (metadata_key Field.user_name));
    domain = first_metadata_value t md (metadata_key Field.domain);
    role_code = first_metadata_value t md (metadata_key Field.role_code);
    tenant_id = first_metadata_value t md (metadata_key Field.tenant_id);
    tenant_code = first_metadata_value t md (metadata_key Field.tenant_code);
    session_id = first_metadata_value t md (metadata_key Field.session_id);
    timezone = first_metadata_value t md (metadata_key Field.timezone);
    ip_address = first_metadata_value t md (metadata_key Field.ip_address);
    app_id = first_metadata_value t md (metadata_key Field.app_id);
    device_id = first_metadata_value t md (metadata_key Field.device_id);
    app_version = first_metadata_value t md (metadata_key Field.app_version);
    platform_id = first_metadata_value t md (metadata_key Field.platform_id);
    platform_code = first_metadata_value t md (metadata_key Field.platform_code);
    region_id = first_metadata_value t md (metadata_key Field.region_id);
    region_code = first_metadata_value t md (metadata_key Field.region_code);
    agent_line_id = first_metadata_value t md (metadata_key Field.agent_line_id);
    nonce = first_metadata_value t md (metadata_key Field.nonce);
    jti = first_metadata_value t md (metadata_key Field.jti);
    family_id = first_metadata_value t md (metadata_key Field.family_id);
    x_ns_id = first_metadata_value t md (metadata_key Field.x_ns_id);
    user_agent = first_metadata_value t md (metadata_key Field.user_agent);
    push_token = first_metadata_value t md (metadata_key Field.push_token);
    token = first_metadata_value t md (metadata_key Field.token);
    timestamp = first_metadata_value t md (metadata_key Field.timestamp);
    signature = first_metadata_value t md (metadata_key Field.signature);
    access_key = first_metadata_value t md (metadata_key Field.access_key);
    accept_language = first_metadata_value t md (metadata_key Field.accept_language);
    forwarded_host = first_metadata_value t md (metadata_key Field.forwarded_host);
  }

  -- `setResponseMetadata`
  unfoldable pub response_metadata : RequestCommonMeta → t.Md
  response_metadata m = t.pairs (
      (metadata_key Field.id, m.id)
      ∷ (metadata_key Field.trace_id, m.trace_id)
      ∷ (metadata_key Field.request_id, m.request_id)
      ∷ (metadata_key Field.authorization, m.authorization)
      ∷ (metadata_key Field.user_id, m.user_id)
      ∷ (metadata_key Field.user_name, l.query_escape m.user_name)
      ∷ (metadata_key Field.domain, m.domain)
      ∷ (metadata_key Field.role_code, m.role_code)
      ∷ (metadata_key Field.tenant_id, m.tenant_id)
      ∷ (metadata_key Field.tenant_code, m.tenant_code)
      ∷ (metadata_key Field.session_id, m.session_id)
      ∷ (metadata_key Field.timezone, m.timezone)
      ∷ (metadata_key Field.ip_address, m.ip_address)
      ∷ (metadata_key Field.app_id, m.app_id)
      ∷ (metadata_key Field.device_id, m.device_id)
      ∷ (metadata_key Field.app_version, m.app_version)
      ∷ (metadata_key Field.platform_id, m.platform_id)
      ∷ (metadata_key Field.platform_code, m.platform_code)
      ∷ (metadata_key Field.region_id, m.region_id)
      ∷ (metadata_key Field.region_code, m.region_code)
      ∷ (metadata_key Field.agent_line_id, m.agent_line_id)
      ∷ (metadata_key Field.nonce, m.nonce)
      ∷ (metadata_key Field.jti, m.jti)
      ∷ (metadata_key Field.family_id, m.family_id)
      ∷ (metadata_key Field.x_ns_id, m.x_ns_id)
      ∷ (metadata_key Field.user_agent, m.user_agent)
      ∷ (metadata_key Field.push_token, m.push_token)
      ∷ (metadata_key Field.token, m.token)
      ∷ (metadata_key Field.timestamp, m.timestamp)
      ∷ (metadata_key Field.signature, m.signature)
      ∷ (metadata_key Field.access_key, m.access_key)
      ∷ (metadata_key Field.accept_language, m.accept_language)
      ∷ (metadata_key Field.forwarded_host, m.forwarded_host)
      ∷ [])

  -- The pairs that a client sends; `language` is that of the i18n context.
  unfoldable pub outgoing_pairs : String → RequestCommonMeta → List (String × String)
  outgoing_pairs language m =
      (metadata_key Field.id, m.id)
      ∷ (metadata_key Field.trace_id, m.trace_id)
      ∷ (metadata_key Field.request_id, m.request_id)
      ∷ (metadata_key Field.authorization, m.authorization)
      ∷ (metadata_key Field.user_id, m.user_id)
      ∷ (metadata_key Field.user_name, l.query_escape m.user_name)
      ∷ (metadata_key Field.domain, m.domain)
      ∷ (metadata_key Field.role_code, m.role_code)
      ∷ (metadata_key Field.tenant_id, m.tenant_id)
      ∷ (metadata_key Field.tenant_code, m.tenant_code)
      ∷ (metadata_key Field.session_id, m.session_id)
      ∷ (metadata_key Field.timezone, m.timezone)
      ∷ (metadata_key Field.ip_address, m.ip_address)
      ∷ (metadata_key Field.app_id, m.app_id)
      ∷ (metadata_key Field.device_id, m.device_id)
      ∷ (metadata_key Field.app_version, m.app_version)
      ∷ (metadata_key Field.platform_id, m.platform_id)
      ∷ (metadata_key Field.platform_code, m.platform_code)
      ∷ (metadata_key Field.region_id, m.region_id)
      ∷ (metadata_key Field.region_code, m.region_code)
      ∷ (metadata_key Field.agent_line_id, m.agent_line_id)
      ∷ (metadata_key Field.nonce, m.nonce)
      ∷ (metadata_key Field.jti, m.jti)
      ∷ (metadata_key Field.family_id, m.family_id)
      ∷ (metadata_key Field.x_ns_id, m.x_ns_id)
      ∷ (metadata_key Field.user_agent, m.user_agent)
      ∷ (metadata_key Field.push_token, m.push_token)
      ∷ (metadata_key Field.token, m.token)
      ∷ (metadata_key Field.timestamp, m.timestamp)
      ∷ (metadata_key Field.signature, m.signature)
      ∷ (metadata_key Field.access_key, m.access_key)
      ∷ (metadata_key Field.accept_language, l.if_empty m.accept_language language)
      ∷ []

module _ (x : Contextx) (t : Transport) (l : Library) where
  -- `enrichContextFromMetadata`; metadata that are missing are empty.
  unfoldable pub enrich_context_from_metadata :
      Option String → String → String → t.Md → World x.Values → World x.Values
  unfolding incoming_meta extract_or_generate_trace_id extract_or_generate_request_id
  enrich_context_from_metadata span fresh_trace fresh_request md w =
      let trace =
        extract_or_generate_trace_id span fresh_trace
          (first_metadata_value t md (metadata_key Field.trace_id)) in
      let request =
        extract_or_generate_request_id fresh_request
          (first_metadata_value t md (metadata_key Field.request_id)) in
      let w' =
        build x
          (with_id x (first_metadata_value t md (metadata_key Field.id))
            ∷ with_request_id x (request)
            ∷ with_trace_id x (trace)
            ∷ with_authorization x (first_metadata_value t md (metadata_key Field.authorization))
            ∷ with_user_id x (first_metadata_value t md (metadata_key Field.user_id))
            ∷ with_user_name x
                (l.query_unescape (first_metadata_value t md (metadata_key Field.user_name)))
            ∷ with_domain x (first_metadata_value t md (metadata_key Field.domain))
            ∷ with_role_code x (first_metadata_value t md (metadata_key Field.role_code))
            ∷ with_tenant_id x (first_metadata_value t md (metadata_key Field.tenant_id))
            ∷ with_tenant_code x (first_metadata_value t md (metadata_key Field.tenant_code))
            ∷ with_session_id x (first_metadata_value t md (metadata_key Field.session_id))
            ∷ with_ip_address x (first_metadata_value t md (metadata_key Field.ip_address))
            ∷ with_timezone x (first_metadata_value t md (metadata_key Field.timezone))
            ∷ with_app_id x (first_metadata_value t md (metadata_key Field.app_id))
            ∷ with_device_id x (first_metadata_value t md (metadata_key Field.device_id))
            ∷ with_app_version x (first_metadata_value t md (metadata_key Field.app_version))
            ∷ with_platform_id x (first_metadata_value t md (metadata_key Field.platform_id))
            ∷ with_platform_code x (first_metadata_value t md (metadata_key Field.platform_code))
            ∷ with_region_id x (first_metadata_value t md (metadata_key Field.region_id))
            ∷ with_region_code x (first_metadata_value t md (metadata_key Field.region_code))
            ∷ with_agent_line_id x (first_metadata_value t md (metadata_key Field.agent_line_id))
            ∷ with_nonce x (first_metadata_value t md (metadata_key Field.nonce))
            ∷ with_jti x (first_metadata_value t md (metadata_key Field.jti))
            ∷ with_family_id x (first_metadata_value t md (metadata_key Field.family_id))
            ∷ with_x_ns_id x (first_metadata_value t md (metadata_key Field.x_ns_id))
            ∷ with_user_agent x (first_metadata_value t md (metadata_key Field.user_agent))
            ∷ with_push_token x (first_metadata_value t md (metadata_key Field.push_token))
            ∷ with_token x (first_metadata_value t md (metadata_key Field.token))
            ∷ with_timestamp x (first_metadata_value t md (metadata_key Field.timestamp))
            ∷ with_signature x (first_metadata_value t md (metadata_key Field.signature))
            ∷ with_access_key x (first_metadata_value t md (metadata_key Field.access_key))
            ∷ with_accept_language x
                (first_metadata_value t md (metadata_key Field.accept_language))
            ∷ with_forwarded_host x (first_metadata_value t md (metadata_key Field.forwarded_host))
            ∷ [])
          w in
      with_request_common_meta x (incoming_meta t l trace request md) w'

  -- `injectTraceToOutgoingContext`: the metadata that the context sends with a call. `existing` is
  -- what it sends already.
  unfoldable pub inject_trace_to_outgoing_context : String → Option t.Md → World x.Values → t.Md
  inject_trace_to_outgoing_context language existing w =
      let md = t.pairs (outgoing_pairs t l language (get_request_common_meta x w)) in
      elim existing [ some old ↦ t.join old md | none ↦ md ]
