-- ===== src/Tests/HealthTests.antt =====
-- The health of the services (cpool/grpc/health.go).
use go_rpc_gateway.Prelude.{
  ℕ, ◌≡◌, ◌↔◌, refl, Bool, true, false, none, some, List, [], ◌∷◌, String, str_eq,
}
use go_rpc_gateway.Prelude.Dict.{Dict, lookup}
use go_rpc_gateway.GrpcHealth.{
  HealthChecker, new_health_checker, invoked, unavailable, is_healthy,
  unary_client_health_interceptor, ensure_service_ready,
}
use go_rpc_gateway.GrpcHealth.Laws.{Event, registers, ticks, run, last_dial, run_refuses_iff}

abbrev endpoints : Dict String
endpoints = ("users", "users:9000") ∷ ("orders", "orders:9000") ∷ []

abbrev orders_down : String → Bool
orders_down endpoint = str_eq endpoint "users:9000"

abbrev events : List (Event ℕ)
events =
    registers "users" (some 1) false
    ∷ registers "orders" (some 2) true
    ∷ ticks endpoints orders_down
    ∷ []

run_refuses_iff_example :
    ((unary_client_health_interceptor "orders" (some (run events new_health_checker)) ≡ unavailable)
      ↔ (last_dial "orders" events none ≡ some false))
    × ((ensure_service_ready true (some (is_healthy (run events new_health_checker))) "orders"
          ≡ invoked)
        ↔ (last_dial "orders" events none ≡ some true))
run_refuses_iff_example = run_refuses_iff "orders" events

orders_last : last_dial "orders" events none ≡ some false
unfolding lookup
orders_last = refl

abbrev checker : HealthChecker ℕ
checker = record {
  clients = ("users", record { conn = some 1; healthy = false }) ∷ [];
  on_recover = true;
}
