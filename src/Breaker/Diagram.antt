-- ===== src/Breaker/Diagram.antt =====
-- The state diagram of breaker/breaker.go: which call may move the breaker from which state.
use go_rpc_gateway.Prelude.{ℕ, ◌≢◌, arith}
use go_rpc_gateway.Breaker.{State, closed, opened, half_open, Breaker}
use go_rpc_gateway.Breaker.Events.{Event, allowed, succeeded, failed, cleared, step}

pub data Arc : State → Event → State → Type 0 where
  keep_allow : {s : State} {now : ℕ} → Arc s (allowed now) s
  probe : {now : ℕ} → Arc opened (allowed now) half_open
  keep_success : {s : State} {now : ℕ} → Arc s (succeeded now) s
  recover : {now : ℕ} → Arc half_open (succeeded now) closed
  keep_failure : {s : State} {now : ℕ} → s ≢ half_open → Arc s (failed now) s
  trip : {now : ℕ} → Arc closed (failed now) opened
  relapse : {now : ℕ} → Arc half_open (failed now) opened
  clear : {s : State} {now : ℕ} → Arc s (cleared now) closed

ruleset arcs = (keep_allow, probe, keep_success, recover, keep_failure, trip, relapse, clear)

-- Every call follows an arc of the diagram: a breaker opens only by a failure, is probed only from
-- the open state, closes only by a success in the half-open state or by a reset, and a failure in
-- the half-open state always opens it again.
pub step-Arc : (e : Event) (b : Breaker) → Arc b.state e (step e b).state
unfolding step
step-Arc (allowed now) b = grind (arith, arcs)
step-Arc (succeeded now) b = grind (arith, arcs)
step-Arc (failed now) b = grind (arith, arcs)
step-Arc (cleared now) b = grind (arith, arcs)
