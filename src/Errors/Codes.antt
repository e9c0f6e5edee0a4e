-- ===== src/Errors/Codes.antt =====
-- errors/code.go: the error codes. `ErrorCode` is an int; a name stands for one that is declared.
use go_rpc_gateway.Prelude.{ℕ, List, [], ◌∷◌}

pub data Name : Type 0 where
  ok gateway_not_initialized invalid_configuration service_unavailable : Name
  internal_server_error gateway_timeout unauthorized forbidden invalid_token : Name
  token_expired invalid_credentials csrf_token_invalid bad_request not_found : Name
  method_not_allowed invalid_content_type request_too_large invalid_parameter : Name
  missing_parameter too_many_requests rate_limit_exceeded circuit_breaker_open : Name
  service_degraded middleware_error recovery_error logging_error tracing_error : Name
  metrics_error security_error signature_invalid grpc_connection_failed : Name
  grpc_service_not_found grpc_method_not_found grpc_timeout grpc_canceled : Name
  health_check_failed health_check_timeout health_check_unavailable : Name
  swagger_not_found swagger_load_failed swagger_render_failed token_malformed : Name
  token_not_valid_yet account_login_elsewhere redis_parse_error db_query_error : Name
  claims_parse_failed pb_message_nil model_message_nil field_conversion_error : Name
  type_conversion_error initialization_error invalid_field_mapping user_id_missing : Name
  must_be_pointer must_be_slice must_be_struct element_conversion item_nil : Name
  language_load_failed language_not_found json_parse_failed invalid_config_type : Name
  feature_not_registered feature_enable_failed middleware_init_failed : Name
  health_manager_failed grpc_server_init_failed http_gateway_init_failed : Name
  wsc_not_enabled wsc_route_failed user_auth_not_found server_creation_failed : Name
  scan_type_mismatch unknown internal operation_failed resource_not_found conflict : Name

abbrev pub code : Name → ℕ
code ok = 0
code gateway_not_initialized = 1001
code invalid_configuration = 1002
code service_unavailable = 1003
code internal_server_error = 1004
code gateway_timeout = 1005
code unauthorized = 2001
code forbidden = 2002
code invalid_token = 2003
code token_expired = 2004
code invalid_credentials = 2005
code csrf_token_invalid = 2006
code bad_request = 3001
code not_found = 3002
code method_not_allowed = 3003
code invalid_content_type = 3004
code request_too_large = 3005
code invalid_parameter = 3006
code missing_parameter = 3007
code too_many_requests = 4001
code rate_limit_exceeded = 4002
code circuit_breaker_open = 4003
code service_degraded = 4004
code middleware_error = 5001
code recovery_error = 5002
code logging_error = 5003
code tracing_error = 5004
code metrics_error = 5005
code security_error = 5006
code signature_invalid = 5007
code grpc_connection_failed = 6001
code grpc_service_not_found = 6002
code grpc_method_not_found = 6003
code grpc_timeout = 6004
code grpc_canceled = 6005
code health_check_failed = 7001
code health_check_timeout = 7002
code health_check_unavailable = 7003
code swagger_not_found = 8001
code swagger_load_failed = 8002
code swagger_render_failed = 8003
code token_malformed = 2101
code token_not_valid_yet = 2102
code account_login_elsewhere = 2103
code redis_parse_error = 2104
code db_query_error = 2105
code claims_parse_failed = 2106
code pb_message_nil = 3101
code model_message_nil = 3102
code field_conversion_error = 3103
code type_conversion_error = 3104
code initialization_error = 3105
code invalid_field_mapping = 3106
code user_id_missing = 3107
code must_be_pointer = 3108
code must_be_slice = 3109
code must_be_struct = 3110
code element_conversion = 3111
code item_nil = 3112
code language_load_failed = 5101
code language_not_found = 5102
code json_parse_failed = 5103
code invalid_config_type = 1101
code feature_not_registered = 1102
code feature_enable_failed = 1103
code middleware_init_failed = 1104
code health_manager_failed = 1105
code grpc_server_init_failed = 1106
code http_gateway_init_failed = 1107
code wsc_not_enabled = 1108
code wsc_route_failed = 1109
code user_auth_not_found = 1110
code server_creation_failed = 1201
code scan_type_mismatch = 1202
code unknown = 9000
code internal = 9001
code operation_failed = 9002
code resource_not_found = 9003
code conflict = 9004

-- Every declared code, in the order of its declaration.
abbrev pub names : List Name
names =
    ok ∷ gateway_not_initialized ∷ invalid_configuration ∷ service_unavailable
    ∷ internal_server_error ∷ gateway_timeout ∷ unauthorized ∷ forbidden ∷ invalid_token
    ∷ token_expired ∷ invalid_credentials ∷ csrf_token_invalid ∷ bad_request ∷ not_found
    ∷ method_not_allowed ∷ invalid_content_type ∷ request_too_large ∷ invalid_parameter
    ∷ missing_parameter ∷ too_many_requests ∷ rate_limit_exceeded ∷ circuit_breaker_open
    ∷ service_degraded ∷ middleware_error ∷ recovery_error ∷ logging_error ∷ tracing_error
    ∷ metrics_error ∷ security_error ∷ signature_invalid ∷ grpc_connection_failed
    ∷ grpc_service_not_found ∷ grpc_method_not_found ∷ grpc_timeout ∷ grpc_canceled
    ∷ health_check_failed ∷ health_check_timeout ∷ health_check_unavailable ∷ swagger_not_found
    ∷ swagger_load_failed ∷ swagger_render_failed ∷ token_malformed ∷ token_not_valid_yet
    ∷ account_login_elsewhere ∷ redis_parse_error ∷ db_query_error ∷ claims_parse_failed
    ∷ pb_message_nil ∷ model_message_nil ∷ field_conversion_error ∷ type_conversion_error
    ∷ initialization_error ∷ invalid_field_mapping ∷ user_id_missing ∷ must_be_pointer
    ∷ must_be_slice ∷ must_be_struct ∷ element_conversion ∷ item_nil ∷ language_load_failed
    ∷ language_not_found ∷ json_parse_failed ∷ invalid_config_type ∷ feature_not_registered
    ∷ feature_enable_failed ∷ middleware_init_failed ∷ health_manager_failed
    ∷ grpc_server_init_failed ∷ http_gateway_init_failed ∷ wsc_not_enabled ∷ wsc_route_failed
    ∷ user_auth_not_found ∷ server_creation_failed ∷ scan_type_mismatch ∷ unknown ∷ internal
    ∷ operation_failed ∷ resource_not_found ∷ conflict ∷ []
