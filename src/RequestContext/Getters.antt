-- ===== src/RequestContext/Getters.antt =====
-- middleware/request_context.go and middleware/scope_reader.go: the `Get` functions.
use go_rpc_gateway.Prelude.{String}
use go_rpc_gateway.RequestContext.Context.{Contextx, World, get_request_common_meta}

module _ (x : Contextx) where
  unfoldable pub get_id : World x.Values → String
  get_id w = (get_request_common_meta x w).id

  unfoldable pub get_trace_id : World x.Values → String
  get_trace_id w = (get_request_common_meta x w).trace_id

  unfoldable pub get_request_id : World x.Values → String
  get_request_id w = (get_request_common_meta x w).request_id

  unfoldable pub get_user_id : World x.Values → String
  get_user_id w = (get_request_common_meta x w).user_id

  unfoldable pub get_user_name : World x.Values → String
  get_user_name w = (get_request_common_meta x w).user_name

  unfoldable pub get_domain : World x.Values → String
  get_domain w = (get_request_common_meta x w).domain

  unfoldable pub get_role_code : World x.Values → String
  get_role_code w = (get_request_common_meta x w).role_code

  unfoldable pub get_tenant_id : World x.Values → String
  get_tenant_id w = (get_request_common_meta x w).tenant_id

  unfoldable pub get_tenant_code : World x.Values → String
  get_tenant_code w = (get_request_common_meta x w).tenant_code

  unfoldable pub get_session_id : World x.Values → String
  get_session_id w = (get_request_common_meta x w).session_id

  unfoldable pub get_timezone : World x.Values → String
  get_timezone w = (get_request_common_meta x w).timezone

  unfoldable pub get_timestamp : World x.Values → String
  get_timestamp w = (get_request_common_meta x w).timestamp

  unfoldable pub get_signature : World x.Values → String
  get_signature w = (get_request_common_meta x w).signature

  unfoldable pub get_authorization : World x.Values → String
  get_authorization w = (get_request_common_meta x w).authorization

  unfoldable pub get_access_key : World x.Values → String
  get_access_key w = (get_request_common_meta x w).access_key

  unfoldable pub get_app_id : World x.Values → String
  get_app_id w = (get_request_common_meta x w).app_id

  unfoldable pub get_device_id : World x.Values → String
  get_device_id w = (get_request_common_meta x w).device_id

  unfoldable pub get_app_version : World x.Values → String
  get_app_version w = (get_request_common_meta x w).app_version

  unfoldable pub get_ip_address : World x.Values → String
  get_ip_address w = (get_request_common_meta x w).ip_address

  unfoldable pub get_platform_id : World x.Values → String
  get_platform_id w = (get_request_common_meta x w).platform_id

  unfoldable pub get_platform_code : World x.Values → String
  get_platform_code w = (get_request_common_meta x w).platform_code

  unfoldable pub get_region_id : World x.Values → String
  get_region_id w = (get_request_common_meta x w).region_id

  unfoldable pub get_region_code : World x.Values → String
  get_region_code w = (get_request_common_meta x w).region_code

  unfoldable pub get_agent_line_id : World x.Values → String
  get_agent_line_id w = (get_request_common_meta x w).agent_line_id

  unfoldable pub get_nonce : World x.Values → String
  get_nonce w = (get_request_common_meta x w).nonce

  unfoldable pub get_jti : World x.Values → String
  get_jti w = (get_request_common_meta x w).jti

  unfoldable pub get_family_id : World x.Values → String
  get_family_id w = (get_request_common_meta x w).family_id

  unfoldable pub get_x_ns_id : World x.Values → String
  get_x_ns_id w = (get_request_common_meta x w).x_ns_id

  unfoldable pub get_user_agent : World x.Values → String
  get_user_agent w = (get_request_common_meta x w).user_agent

  unfoldable pub get_push_token : World x.Values → String
  get_push_token w = (get_request_common_meta x w).push_token

  unfoldable pub get_token : World x.Values → String
  get_token w = (get_request_common_meta x w).token

  unfoldable pub get_forwarded_host : World x.Values → String
  get_forwarded_host w = (get_request_common_meta x w).forwarded_host

  unfoldable pub get_accept_language_from_meta : World x.Values → String
  get_accept_language_from_meta w = (get_request_common_meta x w).accept_language
