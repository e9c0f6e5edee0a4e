-- ===== src/Errors/HttpStatuses.antt =====
-- errors/error.go: the HTTP status of each error code.
use go_rpc_gateway.Prelude.{ℕ}
use go_rpc_gateway.Errors.Codes.{
  Name, ok, gateway_not_initialized, invalid_configuration, service_unavailable,
  internal_server_error, gateway_timeout, unauthorized, forbidden, invalid_token, token_expired,
  invalid_credentials, csrf_token_invalid, bad_request, not_found, method_not_allowed,
  invalid_content_type, request_too_large, invalid_parameter, missing_parameter, too_many_requests,
  rate_limit_exceeded, circuit_breaker_open, service_degraded, middleware_error, recovery_error,
  logging_error, tracing_error, metrics_error, security_error, signature_invalid,
  grpc_connection_failed, grpc_service_not_found, grpc_method_not_found, grpc_timeout,
  grpc_canceled, health_check_failed, health_check_timeout, health_check_unavailable,
  swagger_not_found, swagger_load_failed, swagger_render_failed, token_malformed,
  token_not_valid_yet, account_login_elsewhere, redis_parse_error, db_query_error,
  claims_parse_failed, pb_message_nil, model_message_nil, field_conversion_error,
  type_conversion_error, initialization_error, invalid_field_mapping, user_id_missing,
  must_be_pointer, must_be_slice, must_be_struct, element_conversion, item_nil,
  language_load_failed, language_not_found, json_parse_failed, invalid_config_type,
  feature_not_registered, feature_enable_failed, middleware_init_failed, health_manager_failed,
  grpc_server_init_failed, http_gateway_init_failed, wsc_not_enabled, wsc_route_failed,
  user_auth_not_found, server_creation_failed, scan_type_mismatch, unknown, internal,
  operation_failed, resource_not_found, conflict,
}

unfoldable pub http_status : Name → ℕ
http_status ok = 200
http_status gateway_not_initialized = 500
http_status invalid_configuration = 500
http_status service_unavailable = 503
http_status internal_server_error = 500
http_status gateway_timeout = 504
http_status unauthorized = 401
http_status forbidden = 403
http_status invalid_token = 401
http_status token_expired = 401
http_status invalid_credentials = 401
http_status csrf_token_invalid = 403
http_status bad_request = 400
http_status not_found = 404
http_status method_not_allowed = 405
http_status invalid_content_type = 400
http_status request_too_large = 413
http_status invalid_parameter = 400
http_status missing_parameter = 400
http_status too_many_requests = 429
http_status rate_limit_exceeded = 429
http_status circuit_breaker_open = 503
http_status service_degraded = 503
http_status middleware_error = 500
http_status recovery_error = 500
http_status logging_error = 500
http_status tracing_error = 500
http_status metrics_error = 500
http_status security_error = 403
http_status signature_invalid = 401
http_status grpc_connection_failed = 502
http_status grpc_service_not_found = 404
http_status grpc_method_not_found = 404
http_status grpc_timeout = 504
http_status grpc_canceled = 408
http_status health_check_failed = 503
http_status health_check_timeout = 504
http_status health_check_unavailable = 503
http_status swagger_not_found = 404
http_status swagger_load_failed = 500
http_status swagger_render_failed = 500
http_status token_malformed = 401
http_status token_not_valid_yet = 401
http_status account_login_elsewhere = 401
http_status redis_parse_error = 500
http_status db_query_error = 500
http_status claims_parse_failed = 401
http_status pb_message_nil = 400
http_status model_message_nil = 400
http_status field_conversion_error = 500
http_status type_conversion_error = 400
http_status initialization_error = 500
http_status invalid_field_mapping = 500
http_status user_id_missing = 400
http_status must_be_pointer = 400
http_status must_be_slice = 400
http_status must_be_struct = 400
http_status element_conversion = 500
http_status item_nil = 400
http_status language_load_failed = 500
http_status language_not_found = 404
http_status json_parse_failed = 500
http_status invalid_config_type = 500
http_status feature_not_registered = 500
http_status feature_enable_failed = 500
http_status middleware_init_failed = 500
http_status health_manager_failed = 500
http_status grpc_server_init_failed = 500
http_status http_gateway_init_failed = 500
http_status wsc_not_enabled = 503
http_status wsc_route_failed = 500
http_status user_auth_not_found = 401
http_status server_creation_failed = 500
http_status scan_type_mismatch = 500
http_status unknown = 500
http_status internal = 500
http_status operation_failed = 500
http_status resource_not_found = 404
http_status conflict = 409
