-- ===== src/RequestContext/Fields.antt =====
-- middleware/request_context.go and constants/metadata.go: the values that go with a request, and
-- the key of each in gRPC metadata.
use go_rpc_gateway.Prelude.{Bool, String, str_eq}

pub record RequestCommonMeta : Type 0 where
  pub id : String
  pub trace_id : String
  pub request_id : String
  pub user_id : String
  pub user_name : String
  pub domain : String
  pub role_code : String
  pub tenant_id : String
  pub tenant_code : String
  pub session_id : String
  pub timezone : String
  pub timestamp : String
  pub signature : String
  pub authorization : String
  pub access_key : String
  pub app_id : String
  pub device_id : String
  pub app_version : String
  pub ip_address : String
  pub platform_id : String
  pub platform_code : String
  pub region_id : String
  pub region_code : String
  pub agent_line_id : String
  pub nonce : String
  pub jti : String
  pub family_id : String
  pub x_ns_id : String
  pub user_agent : String
  pub push_token : String
  pub token : String
  pub accept_language : String
  pub forwarded_host : String

-- The fields of `RequestCommonMeta`, for what is said of all of them.
pub data Field : Type 0 where
  id trace_id request_id user_id user_name domain : Field
  role_code tenant_id tenant_code session_id timezone timestamp : Field
  signature authorization access_key app_id device_id app_version : Field
  ip_address platform_id platform_code region_id region_code agent_line_id : Field
  nonce jti family_id x_ns_id user_agent push_token : Field
  token accept_language forwarded_host : Field

abbrev pub metadata_key : Field → String
metadata_key id = "x-id"
metadata_key trace_id = "x-trace-id"
metadata_key request_id = "x-request-id"
metadata_key user_id = "x-user-id"
metadata_key user_name = "x-user-name"
metadata_key domain = "x-domain"
metadata_key role_code = "x-role-code"
metadata_key tenant_id = "x-tenant-id"
metadata_key tenant_code = "x-tenant-code"
metadata_key session_id = "x-session-id"
metadata_key timezone = "x-timezone"
metadata_key timestamp = "x-timestamp"
metadata_key signature = "x-signature"
metadata_key authorization = "authorization"
metadata_key access_key = "x-access-key"
metadata_key app_id = "x-app-id"
metadata_key device_id = "x-device-id"
metadata_key app_version = "x-app-version"
metadata_key ip_address = "x-ip-address"
metadata_key platform_id = "x-platform-id"
metadata_key platform_code = "x-platform-code"
metadata_key region_id = "x-region-id"
metadata_key region_code = "x-region-code"
metadata_key agent_line_id = "x-agent-line-id"
metadata_key nonce = "x-nonce"
metadata_key jti = "x-jti"
metadata_key family_id = "x-family-id"
metadata_key x_ns_id = "x-ns-id"
metadata_key user_agent = "x-user-agent"
metadata_key push_token = "x-push-token"
metadata_key token = "x-token"
metadata_key accept_language = "accept-language"
metadata_key forwarded_host = "x-forwarded-host"

abbrev pub field : Field → RequestCommonMeta → String
field id m = m.id
field trace_id m = m.trace_id
field request_id m = m.request_id
field user_id m = m.user_id
field user_name m = m.user_name
field domain m = m.domain
field role_code m = m.role_code
field tenant_id m = m.tenant_id
field tenant_code m = m.tenant_code
field session_id m = m.session_id
field timezone m = m.timezone
field timestamp m = m.timestamp
field signature m = m.signature
field authorization m = m.authorization
field access_key m = m.access_key
field app_id m = m.app_id
field device_id m = m.device_id
field app_version m = m.app_version
field ip_address m = m.ip_address
field platform_id m = m.platform_id
field platform_code m = m.platform_code
field region_id m = m.region_id
field region_code m = m.region_code
field agent_line_id m = m.agent_line_id
field nonce m = m.nonce
field jti m = m.jti
field family_id m = m.family_id
field x_ns_id m = m.x_ns_id
field user_agent m = m.user_agent
field push_token m = m.push_token
field token m = m.token
field accept_language m = m.accept_language
field forwarded_host m = m.forwarded_host

abbrev pub set_field : Field → String → RequestCommonMeta → RequestCommonMeta
set_field id v m = record m { id = v }
set_field trace_id v m = record m { trace_id = v }
set_field request_id v m = record m { request_id = v }
set_field user_id v m = record m { user_id = v }
set_field user_name v m = record m { user_name = v }
set_field domain v m = record m { domain = v }
set_field role_code v m = record m { role_code = v }
set_field tenant_id v m = record m { tenant_id = v }
set_field tenant_code v m = record m { tenant_code = v }
set_field session_id v m = record m { session_id = v }
set_field timezone v m = record m { timezone = v }
set_field timestamp v m = record m { timestamp = v }
set_field signature v m = record m { signature = v }
set_field authorization v m = record m { authorization = v }
set_field access_key v m = record m { access_key = v }
set_field app_id v m = record m { app_id = v }
set_field device_id v m = record m { device_id = v }
set_field app_version v m = record m { app_version = v }
set_field ip_address v m = record m { ip_address = v }
set_field platform_id v m = record m { platform_id = v }
set_field platform_code v m = record m { platform_code = v }
set_field region_id v m = record m { region_id = v }
set_field region_code v m = record m { region_code = v }
set_field agent_line_id v m = record m { agent_line_id = v }
set_field nonce v m = record m { nonce = v }
set_field jti v m = record m { jti = v }
set_field family_id v m = record m { family_id = v }
set_field x_ns_id v m = record m { x_ns_id = v }
set_field user_agent v m = record m { user_agent = v }
set_field push_token v m = record m { push_token = v }
set_field token v m = record m { token = v }
set_field accept_language v m = record m { accept_language = v }
set_field forwarded_host v m = record m { forwarded_host = v }

-- No two fields have one key.
abbrev pub same_key : Field → Field → Bool
same_key f g = str_eq (metadata_key f) (metadata_key g)
