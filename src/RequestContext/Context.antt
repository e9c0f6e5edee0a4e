-- ===== src/RequestContext/Context.antt =====
-- middleware/request_context.go: contexts that carry a request's values. A context holds a pointer to
-- its `RequestCommonMeta`, which contexts derived from it share, so the structs lie in a store.
use go_rpc_gateway.Prelude.{
  ℕ, ◌≡◌, Option, none, some, List, [], ◌∷◌, ◌++◌, length, get_elem?, modify, String, str_eq,
  if◌then◌else◌,
}
use go_rpc_gateway.RequestContext.Fields.{RequestCommonMeta, Field, metadata_key}

-- `contextx.WithValue` and `contextx.GetValue[string]` at string keys, on the values of a context: a
-- value that was set is found under its key, and every other key keeps its value.
pub record Contextx : Type 1 where
  pub Values : Type 0
  pub with_value : String → String → Values → Values
  pub get_value : String → Values → String
  pub get_value-with_value :
      (key other value : String) (c : Values)
      → get_value other (with_value key value c)
        ≡ (if str_eq key other then value else get_value other c)

-- `meta` is the value under `requestCommonMetaKey{}`: a pointer, or nothing.
pub record Context (Values : Type 0) : Type 0 where
  pub values : Values
  pub meta : Option ℕ

-- The structs that were allocated, and the context at hand.
pub record World (Values : Type 0) : Type 0 where
  pub metas : List RequestCommonMeta
  pub ctx : Context Values

module _ (x : Contextx) where
  -- The struct that `GetRequestCommonMeta` makes when the context has none.
  unfoldable pub from_values : World x.Values → RequestCommonMeta
  from_values w = record {
    id = x.get_value (metadata_key Field.id) w.ctx.values;
    trace_id = x.get_value (metadata_key Field.trace_id) w.ctx.values;
    request_id = x.get_value (metadata_key Field.request_id) w.ctx.values;
    authorization = x.get_value (metadata_key Field.authorization) w.ctx.values;
    user_id = x.get_value (metadata_key Field.user_id) w.ctx.values;
    user_name = x.get_value (metadata_key Field.user_name) w.ctx.values;
    domain = x.get_value (metadata_key Field.domain) w.ctx.values;
    role_code = x.get_value (metadata_key Field.role_code) w.ctx.values;
    tenant_id = x.get_value (metadata_key Field.tenant_id) w.ctx.values;
    tenant_code = x.get_value (metadata_key Field.tenant_code) w.ctx.values;
    session_id = x.get_value (metadata_key Field.session_id) w.ctx.values;
    timezone = x.get_value (metadata_key Field.timezone) w.ctx.values;
    ip_address = x.get_value (metadata_key Field.ip_address) w.ctx.values;
    app_id = x.get_value (metadata_key Field.app_id) w.ctx.values;
    device_id = x.get_value (metadata_key Field.device_id) w.ctx.values;
    app_version = x.get_value (metadata_key Field.app_version) w.ctx.values;
    platform_id = x.get_value (metadata_key Field.platform_id) w.ctx.values;
    platform_code = x.get_value (metadata_key Field.platform_code) w.ctx.values;
    region_id = x.get_value (metadata_key Field.region_id) w.ctx.values;
    region_code = x.get_value (metadata_key Field.region_code) w.ctx.values;
    agent_line_id = x.get_value (metadata_key Field.agent_line_id) w.ctx.values;
    nonce = x.get_value (metadata_key Field.nonce) w.ctx.values;
    jti = x.get_value (metadata_key Field.jti) w.ctx.values;
    family_id = x.get_value (metadata_key Field.family_id) w.ctx.values;
    x_ns_id = x.get_value (metadata_key Field.x_ns_id) w.ctx.values;
    user_agent = x.get_value (metadata_key Field.user_agent) w.ctx.values;
    push_token = x.get_value (metadata_key Field.push_token) w.ctx.values;
    token = x.get_value (metadata_key Field.token) w.ctx.values;
    timestamp = x.get_value (metadata_key Field.timestamp) w.ctx.values;
    signature = x.get_value (metadata_key Field.signature) w.ctx.values;
    access_key = x.get_value (metadata_key Field.access_key) w.ctx.values;
    accept_language = x.get_value (metadata_key Field.accept_language) w.ctx.values;
    forwarded_host = x.get_value (metadata_key Field.forwarded_host) w.ctx.values;
  }

  unfoldable pub get_request_common_meta : World x.Values → RequestCommonMeta
  get_request_common_meta w = elim w.ctx.meta [
    | some p ↦ elim (get_elem? w.metas p) [ some m ↦ m | none ↦ from_values w ]
    | none ↦ from_values w
  ]

  -- A new struct, and a context that points to it.
  unfoldable pub with_request_common_meta : RequestCommonMeta → World x.Values → World x.Values
  with_request_common_meta m w = record {
    metas = w.metas ++ m ∷ [];
    ctx = record { values = w.ctx.values; meta = some (length w.metas) };
  }

  abbrev pub with_value : Field → String → World x.Values → World x.Values
  with_value f value w = record w {
    ctx = record { values = x.with_value (metadata_key f) value w.ctx.values; meta = w.ctx.meta };
  }

  -- The struct is changed in place, for every context that points to it.
  unfoldable pub update_request_common_meta_field :
      (RequestCommonMeta → RequestCommonMeta) → World x.Values → World x.Values
  update_request_common_meta_field update w = elim w.ctx.meta [
    | some p ↦ record w { metas = modify update w.metas p }
    | none ↦ w
  ]
