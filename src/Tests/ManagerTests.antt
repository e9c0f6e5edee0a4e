-- ===== src/Tests/ManagerTests.antt =====
-- The breaker manager and its middlewares (breaker/manager.go, breaker/middleware.go).
use go_rpc_gateway.Prelude.{
  ◌≡◌, refl, true, false, ◌&&◌, some, List, [], ◌∷◌, str_eq, if◌then◌else◌,
}
use go_rpc_gateway.Prelude.Int.{pos}
use go_rpc_gateway.Prelude.Dict.{lookup, insert}
use go_rpc_gateway.Prelude.Words.{int32, add_int32, add_int64}
use go_rpc_gateway.Breaker.{new, allow, record_failure}
use go_rpc_gateway.Breaker.Manager.{
  Manager, get_breaker, new_breaker, update_breaker, is_path_protected,
}
use go_rpc_gateway.Breaker.Middleware.{
  WriterCall, write_header, write, captured_status, rejected, enter, http_middleware,
}
use go_rpc_gateway.Breaker.Middleware.Laws.{sent_status, met, after_request, lookup-http_middleware}

abbrev manager : Manager
manager = record {
  breakers = [];
  failure_threshold = pos 1;
  success_threshold = pos 1;
  timeout = pos 10;
  volume_threshold = pos 1;
  prevention_paths = "/api" ∷ [];
  exclude_paths = "/api/health" ∷ [];
}

protection :
    (is_path_protected "/api/users" manager ≡ true)
    × (is_path_protected "/api/health" manager ≡ false)
unfolding is_path_protected
protection = (refl, refl)

abbrev failing : Manager
failing = (http_middleware "/api/users" 1 2 (write_header 500 ∷ []) manager).0

failing_rejects : (enter "/api/users" 5 failing).1 ≡ rejected
unfolding enter http_middleware is_path_protected get_breaker update_breaker lookup insert allow
    new_breaker record_failure captured_status new int32 add_int32 add_int64
failing_rejects = refl

abbrev late_failure : List WriterCall
late_failure = write ∷ write_header 500 ∷ []

lookup-http_middleware_example :
    lookup "/api/users"
      (http_middleware "/api/users" 1 2 (write_header 500 ∷ []) manager).0.breakers
    ≡ (if is_path_protected "/api/users" manager && str_eq "/api/users" "/api/users"
        then some (
            after_request 2
              (sent_status (write_header 500 ∷ []))
              (allow 1 (met "/api/users" 1 manager)))
        else lookup "/api/users" manager.breakers)
lookup-http_middleware_example =
    lookup-http_middleware "/api/users" "/api/users" 1 2 (write_header 500 ∷ []) manager (refl, tt)
