-- ===== src/Errors/Statuses.antt =====
-- errors/error.go and proto/common.proto: the gRPC status of each error code.
use go_rpc_gateway.Prelude.{ℕ}
use go_rpc_gateway.Errors.Codes.{Name}

-- `commonapis.StatusCode`; `unrecognized` is any other number of that open enumeration.
pub data StatusCode : Type 0 where
  ok canceled unknown invalid_argument deadline_exceeded not_found already_exists : StatusCode
  permission_denied resource_exhausted failed_precondition aborted out_of_range : StatusCode
  unimplemented internal unavailable data_loss unauthenticated : StatusCode
  unrecognized : ℕ → StatusCode

unfoldable pub status_code : Name → StatusCode
status_code Name.ok = StatusCode.ok
status_code Name.gateway_not_initialized = StatusCode.internal
status_code Name.invalid_configuration = StatusCode.internal
status_code Name.service_unavailable = StatusCode.unavailable
status_code Name.internal_server_error = StatusCode.internal
status_code Name.gateway_timeout = StatusCode.deadline_exceeded
status_code Name.unauthorized = StatusCode.unauthenticated
status_code Name.forbidden = StatusCode.permission_denied
status_code Name.invalid_token = StatusCode.unauthenticated
status_code Name.token_expired = StatusCode.unauthenticated
status_code Name.invalid_credentials = StatusCode.unauthenticated
status_code Name.csrf_token_invalid = StatusCode.permission_denied
status_code Name.bad_request = StatusCode.invalid_argument
status_code Name.not_found = StatusCode.not_found
status_code Name.method_not_allowed = StatusCode.unimplemented
status_code Name.invalid_content_type = StatusCode.invalid_argument
status_code Name.request_too_large = StatusCode.invalid_argument
status_code Name.invalid_parameter = StatusCode.invalid_argument
status_code Name.missing_parameter = StatusCode.invalid_argument
status_code Name.too_many_requests = StatusCode.resource_exhausted
status_code Name.rate_limit_exceeded = StatusCode.resource_exhausted
status_code Name.circuit_breaker_open = StatusCode.unavailable
status_code Name.service_degraded = StatusCode.unavailable
status_code Name.middleware_error = StatusCode.internal
status_code Name.recovery_error = StatusCode.internal
status_code Name.logging_error = StatusCode.internal
status_code Name.tracing_error = StatusCode.internal
status_code Name.metrics_error = StatusCode.internal
status_code Name.security_error = StatusCode.permission_denied
status_code Name.signature_invalid = StatusCode.unauthenticated
status_code Name.grpc_connection_failed = StatusCode.unavailable
status_code Name.grpc_service_not_found = StatusCode.not_found
status_code Name.grpc_method_not_found = StatusCode.unimplemented
status_code Name.grpc_timeout = StatusCode.deadline_exceeded
status_code Name.grpc_canceled = StatusCode.canceled
status_code Name.health_check_failed = StatusCode.unavailable
status_code Name.health_check_timeout = StatusCode.deadline_exceeded
status_code Name.health_check_unavailable = StatusCode.unavailable
status_code Name.swagger_not_found = StatusCode.not_found
status_code Name.swagger_load_failed = StatusCode.internal
status_code Name.swagger_render_failed = StatusCode.internal
status_code Name.token_malformed = StatusCode.unauthenticated
status_code Name.token_not_valid_yet = StatusCode.unauthenticated
status_code Name.account_login_elsewhere = StatusCode.unauthenticated
status_code Name.redis_parse_error = StatusCode.internal
status_code Name.db_query_error = StatusCode.internal
status_code Name.claims_parse_failed = StatusCode.unauthenticated
status_code Name.pb_message_nil = StatusCode.invalid_argument
status_code Name.model_message_nil = StatusCode.invalid_argument
status_code Name.field_conversion_error = StatusCode.internal
status_code Name.type_conversion_error = StatusCode.invalid_argument
status_code Name.initialization_error = StatusCode.internal
status_code Name.invalid_field_mapping = StatusCode.internal
status_code Name.user_id_missing = StatusCode.invalid_argument
status_code Name.must_be_pointer = StatusCode.invalid_argument
status_code Name.must_be_slice = StatusCode.invalid_argument
status_code Name.must_be_struct = StatusCode.invalid_argument
status_code Name.element_conversion = StatusCode.internal
status_code Name.item_nil = StatusCode.invalid_argument
status_code Name.language_load_failed = StatusCode.internal
status_code Name.language_not_found = StatusCode.not_found
status_code Name.json_parse_failed = StatusCode.internal
status_code Name.invalid_config_type = StatusCode.internal
status_code Name.feature_not_registered = StatusCode.internal
status_code Name.feature_enable_failed = StatusCode.internal
status_code Name.middleware_init_failed = StatusCode.internal
status_code Name.health_manager_failed = StatusCode.internal
status_code Name.grpc_server_init_failed = StatusCode.internal
status_code Name.http_gateway_init_failed = StatusCode.internal
status_code Name.wsc_not_enabled = StatusCode.unavailable
status_code Name.wsc_route_failed = StatusCode.internal
status_code Name.user_auth_not_found = StatusCode.unauthenticated
status_code Name.server_creation_failed = StatusCode.internal
status_code Name.scan_type_mismatch = StatusCode.internal
status_code Name.unknown = StatusCode.unknown
status_code Name.internal = StatusCode.internal
status_code Name.operation_failed = StatusCode.internal
status_code Name.resource_not_found = StatusCode.not_found
status_code Name.conflict = StatusCode.already_exists
