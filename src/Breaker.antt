-- ===== src/Breaker.antt =====
-- breaker/breaker.go: the circuit breaker of one path, its state and operations.
-- A method that writes through `*Breaker` returns the new record. `now` is the reading of
-- `time.Now()`, in nanoseconds since the zero `time.Time`; an operation reads the clock once.
pub mod Events
pub mod Diagram
pub mod Contract
pub mod Refinement
pub mod Behaviour
pub mod Manager
pub mod Middleware
pub mod Interleaving
use go_rpc_gateway.Prelude.{ℕ, ◌-◌, ltb, Bool, true, false, if◌then◌else◌}
use go_rpc_gateway.Prelude.Int.{ℤ, pos, negsuc, sub_ℕ, ltb_ℤ, leb_ℤ}
use go_rpc_gateway.Prelude.Words.{int32, int64, add_int32, add_int64}

pub data State : Type 0 where
  closed opened half_open : State

pub record Breaker : Type 0 where
  pub state : State
  pub failure_threshold : ℤ
  pub success_threshold : ℤ
  pub timeout : ℤ  -- time.Duration
  pub volume_threshold : ℤ
  pub failure_count : ℤ  -- int32
  pub success_count : ℤ  -- int32
  pub total_requests : ℤ  -- int64
  pub failed_requests : ℤ  -- int64
  pub last_failure_time : ℕ
  pub last_success_time : ℕ
  pub last_state_change_at : ℕ

unfoldable pub new : ℤ → ℤ → ℤ → ℤ → ℕ → Breaker
new failure_threshold success_threshold volume_threshold timeout now = record {
  state = closed;
  failure_threshold = failure_threshold;
  success_threshold = success_threshold;
  timeout = timeout;
  volume_threshold = volume_threshold;
  failure_count = pos 0;
  success_count = pos 0;
  total_requests = pos 0;
  failed_requests = pos 0;
  last_failure_time = 0;
  last_success_time = 0;
  last_state_change_at = now;
}

-- The counters are cleared on the way to `Closed` and to `HalfOpen`, not on the way to `Open`.
unfoldable pub transition_to : State → ℕ → Breaker → Breaker
transition_to closed now b = record b {
  state = closed;
  last_state_change_at = now;
  failure_count = pos 0;
  success_count = pos 0;
}
transition_to opened now b = record b { state = opened; last_state_change_at = now }
transition_to half_open now b = record b {
  state = half_open;
  last_state_change_at = now;
  failure_count = pos 0;
  success_count = pos 0;
}

-- `time.Since(t)`, which stops at the ends of the int64 range.
abbrev pub since : ℕ → ℕ → ℤ
since now t =
    if ltb 9223372036854775807 (now - t)
    then pos 9223372036854775807
    else if ltb 9223372036854775808 (t - now)
    then negsuc 9223372036854775807
    else sub_ℕ now t

allow_in : State → ℕ → Breaker → Breaker × Bool
allow_in closed now b = (b, true)
allow_in opened now b =
    if ltb_ℤ b.timeout (since now b.last_failure_time)
    then (transition_to half_open now b, true)
    else (b, false)
allow_in half_open now b = (b, true)

unfoldable pub allow : ℕ → Breaker → Breaker × Bool
unfolding allow_in transition_to
allow now b = allow_in b.state now b

success_in : State → ℕ → Breaker → Breaker
success_in closed now b = record b { last_success_time = now }
success_in opened now b = b
success_in half_open now b =
    let c = record b { success_count = add_int32 b.success_count } in
    let d =
      if leb_ℤ (int32 c.success_threshold) c.success_count then transition_to closed now c else c in
    record d { last_success_time = now }

unfoldable pub record_success : ℕ → Breaker → Breaker
unfolding success_in transition_to
record_success now b =
    let c = record b { total_requests = add_int64 b.total_requests; failure_count = pos 0 } in
    success_in c.state now c

failure_in : State → ℕ → Breaker → Breaker
failure_in closed now b =
    if leb_ℤ (int32 b.failure_threshold) b.failure_count
    then if leb_ℤ b.volume_threshold b.total_requests then transition_to opened now b else b
    else b
failure_in opened now b = b
failure_in half_open now b = transition_to opened now b

unfoldable pub record_failure : ℕ → Breaker → Breaker
unfolding failure_in transition_to
record_failure now b =
    let c = record b {
      total_requests = add_int64 b.total_requests;
      failed_requests = add_int64 b.failed_requests;
      failure_count = add_int32 b.failure_count;
      success_count = pos 0;
      last_failure_time = now;
    } in
    failure_in c.state now c

unfoldable pub reset : ℕ → Breaker → Breaker
reset now b = record b {
  state = closed;
  failure_count = pos 0;
  success_count = pos 0;
  total_requests = pos 0;
  failed_requests = pos 0;
  last_state_change_at = now;
}

unfoldable pub get_state : Breaker → State
get_state b = b.state
