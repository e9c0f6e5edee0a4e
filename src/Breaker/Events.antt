-- ===== src/Breaker/Events.antt =====
-- Histories of one breaker: the calls that breaker/middleware.go and breaker/manager.go make on a
-- `*Breaker`, as events, each with its reading of the clock.
use go_rpc_gateway.Prelude.{ℕ, List, [], ◌∷◌}
use go_rpc_gateway.Breaker.{Breaker, allow, record_success, record_failure, reset}

pub data Event : Type 0 where
  allowed : ℕ → Event
  succeeded : ℕ → Event
  failed : ℕ → Event
  cleared : ℕ → Event

unfoldable pub step : Event → Breaker → Breaker
unfolding allow record_success record_failure reset
step (allowed now) b = (allow now b).0
step (succeeded now) b = record_success now b
step (failed now) b = record_failure now b
step (cleared now) b = reset now b

unfoldable pub run : List Event → Breaker → Breaker
run [] b = b
run (e ∷ es) b = run es (step e b)
