-- ===== src/RequestContext/Setters.antt =====
-- middleware/request_context.go: the `With` functions, each of which sets one value in the context and
-- in the struct that the context points to. The context builder's methods call them.
use go_rpc_gateway.Prelude.{String, List, [], ◌∷◌}
use go_rpc_gateway.RequestContext.Fields.{Field}
use go_rpc_gateway.RequestContext.Context.{
  Contextx, World, with_value, update_request_common_meta_field,
}

module _ (x : Contextx) where
  unfoldable pub with_trace_id : String → World x.Values → World x.Values
  with_trace_id v w =
      update_request_common_meta_field x (λ m. record m { trace_id = v })
        (with_value x Field.trace_id v w)

  unfoldable pub with_request_id : String → World x.Values → World x.Values
  with_request_id v w =
      update_request_common_meta_field x (λ m. record m { request_id = v })
        (with_value x Field.request_id v w)

  unfoldable pub with_authorization : String → World x.Values → World x.Values
  with_authorization v w =
      update_request_common_meta_field x (λ m. record m { authorization = v })
        (with_value x Field.authorization v w)

  unfoldable pub with_user_id : String → World x.Values → World x.Values
  with_user_id v w =
      update_request_common_meta_field x (λ m. record m { user_id = v })
        (with_value x Field.user_id v w)

  unfoldable pub with_user_name : String → World x.Values → World x.Values
  with_user_name v w =
      update_request_common_meta_field x (λ m. record m { user_name = v })
        (with_value x Field.user_name v w)

  unfoldable pub with_domain : String → World x.Values → World x.Values
  with_domain v w =
      update_request_common_meta_field x (λ m. record m { domain = v })
        (with_value x Field.domain v w)

  unfoldable pub with_role_code : String → World x.Values → World x.Values
  with_role_code v w =
      update_request_common_meta_field x (λ m. record m { role_code = v })
        (with_value x Field.role_code v w)

  unfoldable pub with_tenant_id : String → World x.Values → World x.Values
  with_tenant_id v w =
      update_request_common_meta_field x (λ m. record m { tenant_id = v })
        (with_value x Field.tenant_id v w)

  unfoldable pub with_session_id : String → World x.Values → World x.Values
  with_session_id v w =
      update_request_common_meta_field x (λ m. record m { session_id = v })
        (with_value x Field.session_id v w)

  unfoldable pub with_timezone : String → World x.Values → World x.Values
  with_timezone v w =
      update_request_common_meta_field x (λ m. record m { timezone = v })
        (with_value x Field.timezone v w)

  unfoldable pub with_ip_address : String → World x.Values → World x.Values
  with_ip_address v w =
      update_request_common_meta_field x (λ m. record m { ip_address = v })
        (with_value x Field.ip_address v w)

  unfoldable pub with_id : String → World x.Values → World x.Values
  with_id v w =
      update_request_common_meta_field x (λ m. record m { id = v }) (with_value x Field.id v w)

  unfoldable pub with_tenant_code : String → World x.Values → World x.Values
  with_tenant_code v w =
      update_request_common_meta_field x (λ m. record m { tenant_code = v })
        (with_value x Field.tenant_code v w)

  unfoldable pub with_platform_id : String → World x.Values → World x.Values
  with_platform_id v w =
      update_request_common_meta_field x (λ m. record m { platform_id = v })
        (with_value x Field.platform_id v w)

  unfoldable pub with_platform_code : String → World x.Values → World x.Values
  with_platform_code v w =
      update_request_common_meta_field x (λ m. record m { platform_code = v })
        (with_value x Field.platform_code v w)

  unfoldable pub with_region_id : String → World x.Values → World x.Values
  with_region_id v w =
      update_request_common_meta_field x (λ m. record m { region_id = v })
        (with_value x Field.region_id v w)

  unfoldable pub with_region_code : String → World x.Values → World x.Values
  with_region_code v w =
      update_request_common_meta_field x (λ m. record m { region_code = v })
        (with_value x Field.region_code v w)

  unfoldable pub with_agent_line_id : String → World x.Values → World x.Values
  with_agent_line_id v w =
      update_request_common_meta_field x (λ m. record m { agent_line_id = v })
        (with_value x Field.agent_line_id v w)

  unfoldable pub with_x_ns_id : String → World x.Values → World x.Values
  with_x_ns_id v w =
      update_request_common_meta_field x (λ m. record m { x_ns_id = v })
        (with_value x Field.x_ns_id v w)

  unfoldable pub with_app_id : String → World x.Values → World x.Values
  with_app_id v w =
      update_request_common_meta_field x (λ m. record m { app_id = v })
        (with_value x Field.app_id v w)

  unfoldable pub with_device_id : String → World x.Values → World x.Values
  with_device_id v w =
      update_request_common_meta_field x (λ m. record m { device_id = v })
        (with_value x Field.device_id v w)

  unfoldable pub with_app_version : String → World x.Values → World x.Values
  with_app_version v w =
      update_request_common_meta_field x (λ m. record m { app_version = v })
        (with_value x Field.app_version v w)

  unfoldable pub with_nonce : String → World x.Values → World x.Values
  with_nonce v w =
      update_request_common_meta_field x (λ m. record m { nonce = v })
        (with_value x Field.nonce v w)

  unfoldable pub with_jti : String → World x.Values → World x.Values
  with_jti v w =
      update_request_common_meta_field x (λ m. record m { jti = v }) (with_value x Field.jti v w)

  unfoldable pub with_family_id : String → World x.Values → World x.Values
  with_family_id v w =
      update_request_common_meta_field x (λ m. record m { family_id = v })
        (with_value x Field.family_id v w)

  unfoldable pub with_user_agent : String → World x.Values → World x.Values
  with_user_agent v w =
      update_request_common_meta_field x (λ m. record m { user_agent = v })
        (with_value x Field.user_agent v w)

  unfoldable pub with_timestamp : String → World x.Values → World x.Values
  with_timestamp v w =
      update_request_common_meta_field x (λ m. record m { timestamp = v })
        (with_value x Field.timestamp v w)

  unfoldable pub with_signature : String → World x.Values → World x.Values
  with_signature v w =
      update_request_common_meta_field x (λ m. record m { signature = v })
        (with_value x Field.signature v w)

  unfoldable pub with_access_key : String → World x.Values → World x.Values
  with_access_key v w =
      update_request_common_meta_field x (λ m. record m { access_key = v })
        (with_value x Field.access_key v w)

  unfoldable pub with_push_token : String → World x.Values → World x.Values
  with_push_token v w =
      update_request_common_meta_field x (λ m. record m { push_token = v })
        (with_value x Field.push_token v w)

  unfoldable pub with_token : String → World x.Values → World x.Values
  with_token v w =
      update_request_common_meta_field x (λ m. record m { token = v })
        (with_value x Field.token v w)

  unfoldable pub with_accept_language : String → World x.Values → World x.Values
  with_accept_language v w =
      update_request_common_meta_field x (λ m. record m { accept_language = v })
        (with_value x Field.accept_language v w)

  unfoldable pub with_forwarded_host : String → World x.Values → World x.Values
  with_forwarded_host v w =
      update_request_common_meta_field x (λ m. record m { forwarded_host = v })
        (with_value x Field.forwarded_host v w)

  -- `NewContextBuilder(ctx).WithA(a).WithB(b).Build()`
  unfoldable pub build : List (World x.Values → World x.Values) → World x.Values → World x.Values
  build [] w = w
  build (set ∷ sets) w = build sets (set w)
