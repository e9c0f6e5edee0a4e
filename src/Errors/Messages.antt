-- ===== src/Errors/Messages.antt =====
-- errors/error.go: the message of each error code.
use go_rpc_gateway.Prelude.{String}
use go_rpc_gateway.Errors.Codes.{
  Name, ok, gateway_not_initialized, invalid_configuration, service_unavailable,
  internal_server_error, gateway_timeout, unauthorized, forbidden, invalid_token, token_expired,
  invalid_credentials, csrf_token_invalid, bad_request, not_found, method_not_allowed,
  invalid_content_type, request_too_large, invalid_parameter, missing_parameter, too_many_requests,
  rate_limit_exceeded, circuit_breaker_open, service_degraded, middleware_error, recovery_error,
  logging_error, tracing_error, metrics_error, security_error, signature_invalid,
  grpc_connection_failed, grpc_service_not_found, grpc_method_not_found, grpc_timeout,
  grpc_canceled, health_check_failed, health_check_timeout, health_check_unavailable,
  swagger_not_found, swagger_load_failed, swagger_render_failed, token_malformed,
  token_not_valid_yet, account_login_elsewhere, redis_parse_error, db_query_error,
  claims_parse_failed, pb_message_nil, model_message_nil, field_conversion_error,
  type_conversion_error, initialization_error, invalid_field_mapping, user_id_missing,
  must_be_pointer, must_be_slice, must_be_struct, element_conversion, item_nil,
  language_load_failed, language_not_found, json_parse_failed, invalid_config_type,
  feature_not_registered, feature_enable_failed, middleware_init_failed, health_manager_failed,
  grpc_server_init_failed, http_gateway_init_failed, wsc_not_enabled, wsc_route_failed,
  user_auth_not_found, server_creation_failed, scan_type_mismatch, unknown, internal,
  operation_failed, resource_not_found, conflict,
}

unfoldable pub message : Name → String
message ok = "OK"
message gateway_not_initialized = "Gateway not initialized"
message invalid_configuration = "Invalid configuration"
message service_unavailable = "Service unavailable"
message internal_server_error = "Internal server error"
message gateway_timeout = "Gateway timeout"
message unauthorized = "Unauthorized"
message forbidden = "Forbidden"
message invalid_token = "Invalid token"
message token_expired = "Token expired"
message invalid_credentials = "Invalid credentials"
message csrf_token_invalid = "CSRF token validation failed"
message bad_request = "Bad request"
message not_found = "Not found"
message method_not_allowed = "Method not allowed"
message invalid_content_type = "Invalid content type"
message request_too_large = "Request too large"
message invalid_parameter = "Invalid parameter"
message missing_parameter = "Missing parameter"
message too_many_requests = "Too many requests"
message rate_limit_exceeded = "Rate limit exceeded"
message circuit_breaker_open = "Circuit breaker open"
message service_degraded = "Service degraded"
message middleware_error = "Middleware error"
message recovery_error = "Recovery error"
message logging_error = "Logging error"
message tracing_error = "Tracing error"
message metrics_error = "Metrics error"
message security_error = "Security error"
message signature_invalid = "Invalid signature"
message grpc_connection_failed = "gRPC connection failed"
message grpc_service_not_found = "gRPC service not found"
message grpc_method_not_found = "gRPC method not found"
message grpc_timeout = "gRPC timeout"
message grpc_canceled = "gRPC canceled"
message health_check_failed = "Health check failed"
message health_check_timeout = "Health check timeout"
message health_check_unavailable = "Health check unavailable"
message swagger_not_found = "Swagger JSON not found"
message swagger_load_failed = "Failed to load Swagger"
message swagger_render_failed = "Failed to render Swagger UI"
message token_malformed = "Token格式错误"
message token_not_valid_yet = "Token尚未激活"
message account_login_elsewhere = "账号已在其他地方登录，您已被迫下线"
message redis_parse_error = "解析Redis中的用户token时出错"
message db_query_error = "从数据库获取用户token异常"
message claims_parse_failed = "获取用户claims失败"
message pb_message_nil = "PB message不能为空"
message model_message_nil = "Model message不能为空"
message field_conversion_error = "字段转换失败"
message type_conversion_error = "类型转换失败"
message initialization_error = "初始化失败"
message invalid_field_mapping = "无效的字段映射"
message user_id_missing = "缺少用户ID"
message must_be_pointer = "必须是指针类型"
message must_be_slice = "必须是切片类型"
message must_be_struct = "必须是结构体类型"
message element_conversion = "元素转换失败"
message item_nil = "项目为空"
message language_load_failed = "语言加载失败"
message language_not_found = "语言未找到"
message json_parse_failed = "JSON解析失败"
message invalid_config_type = "无效的配置类型"
message feature_not_registered = "特性未注册"
message feature_enable_failed = "特性启用失败"
message middleware_init_failed = "中间件初始化失败"
message health_manager_failed = "健康检查管理器创建失败"
message grpc_server_init_failed = "gRPC服务器初始化失败"
message http_gateway_init_failed = "HTTP网关初始化失败"
message wsc_not_enabled = "WSC功能未在配置中启用"
message wsc_route_failed = "注册WSC路由失败"
message user_auth_not_found = "未找到用户认证信息"
message server_creation_failed = "创建服务器失败"
message scan_type_mismatch = "扫描类型不匹配"
message unknown = "Unknown error"
message internal = "Internal error"
message operation_failed = "Operation failed"
message resource_not_found = "Resource not found"
message conflict = "Conflict"
