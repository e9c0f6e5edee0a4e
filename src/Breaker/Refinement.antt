-- ===== src/Breaker/Refinement.antt =====
-- The breaker of breaker/breaker.go implements the reference machine, as long as fewer than
-- 2 ^ 31 - 1 requests were recorded, so that no counter wraps.
use go_rpc_gateway.Prelude.{ℕ, ◌+◌, ◌≤◌, ◌<◌, ◌≡◌, List, [], ◌∷◌, length, arith}
use go_rpc_gateway.Prelude.Int.{pos}
use go_rpc_gateway.Prelude.Words.{int32-pos, add_int32-pos, add_int64-pos}
use go_rpc_gateway.Breaker
use go_rpc_gateway.Breaker.{Breaker, new}
use go_rpc_gateway.Breaker.Events.{Event, allowed, succeeded, failed, cleared, step, run}
use go_rpc_gateway.Breaker.Contract.{
  Config, Phase, closed, opened, half_open, View, fresh, spec_step, spec_run,
}

-- What a phase says of the breaker's fields, with `n` requests recorded.
abbrev pub Fits : Phase → Breaker → ℕ → Type 0
Fits (closed k) b n = (b.state ≡ Breaker.closed) × (b.failure_count ≡ pos k) × (k ≤ n)
Fits (opened t) b n = (b.state ≡ Breaker.opened) × (b.last_failure_time ≡ t)
Fits (half_open k) b n = (b.state ≡ Breaker.half_open) × (b.success_count ≡ pos k) × (k ≤ n)

pub record Represents (c : Config) (b : Breaker) (v : View) : Type 0 where
  pub fits : Fits v.phase b v.total
  pub total : b.total_requests ≡ pos v.total
  pub failures : b.failed_requests ≡ pos v.failures
  pub failures_le : v.failures ≤ v.total
  pub failure_threshold : b.failure_threshold ≡ pos c.failure_threshold
  pub success_threshold : b.success_threshold ≡ pos c.success_threshold
  pub volume_threshold : b.volume_threshold ≡ pos c.volume_threshold
  pub timeout : b.timeout ≡ c.timeout

-- The thresholds are non-negative and fit an int32.
pub record IsConfig (c : Config) : Type 0 where
  pub failure_small : c.failure_threshold < 2147483648
  pub success_small : c.success_threshold < 2147483648

step-Represents_at :
    (c : Config) (b : Breaker) (p : Phase) (total failures : ℕ) (e : Event)
    → IsConfig c
    → total + 1 < 2147483648
    → Represents c b (record { phase = p; total = total; failures = failures })
    → Represents c
        (step e b)
        (spec_step c e (record { phase = p; total = total; failures = failures }))
unfolding step spec_step
step-Represents_at c b (closed k) total failures (allowed now) ok small r = ground arith
step-Represents_at c b (closed k) total failures (succeeded now) ok small r =
    ground (arith, add_int64-pos total)
step-Represents_at c b (closed k) total failures (failed now) ok small r = ground (
  arith,
  add_int64-pos total,
  add_int64-pos failures,
  add_int32-pos k,
  int32-pos c.failure_threshold,
)
step-Represents_at c b (closed k) total failures (cleared now) ok small r = ground arith
step-Represents_at c b (opened t) total failures (allowed now) ok small r = ground arith
step-Represents_at c b (opened t) total failures (succeeded now) ok small r =
    ground (arith, add_int64-pos total)
step-Represents_at c b (opened t) total failures (failed now) ok small r =
    ground (arith, add_int64-pos total, add_int64-pos failures)
step-Represents_at c b (opened t) total failures (cleared now) ok small r = ground arith
step-Represents_at c b (half_open k) total failures (allowed now) ok small r = ground arith
step-Represents_at c b (half_open k) total failures (succeeded now) ok small r =
    ground (arith, add_int64-pos total, add_int32-pos k, int32-pos c.success_threshold)
step-Represents_at c b (half_open k) total failures (failed now) ok small r =
    ground (arith, add_int64-pos total, add_int64-pos failures)
step-Represents_at c b (half_open k) total failures (cleared now) ok small r = ground arith

-- One call of the breaker is one step of the reference machine: from a breaker that represents a
-- view, with fewer than 2 ^ 31 - 1 requests recorded and int32 thresholds, every event leads to a
-- breaker that represents the next view.
pub step-Represents :
    (c : Config) (b : Breaker) (v : View) (e : Event)
    → IsConfig c
    → v.total + 1 < 2147483648
    → Represents c b v
    → Represents c (step e b) (spec_step c e v)
step-Represents c b v e ok small r = step-Represents_at c b v.phase v.total v.failures e ok small r

spec_step_total : (c : Config) (e : Event) (v : View) → (spec_step c e v).total ≤ v.total + 1
unfolding spec_step
spec_step_total c (allowed now) v = omega arith
spec_step_total c (succeeded now) v = omega arith
spec_step_total c (failed now) v = omega arith
spec_step_total c (cleared now) v = omega arith

pub run_from-Represents :
    (c : Config) (es : List Event) (b : Breaker) (v : View)
    → IsConfig c
    → v.total + length es < 2147483648
    → Represents c b v
    → Represents c (run es b) (spec_run c es v)
unfolding run spec_run
run_from-Represents c [] b v ok small r = r
run_from-Represents c (e ∷ es) b v ok small r =
    run_from-Represents c es (step e b) (spec_step c e v) ok (omega (arith, spec_step_total c e v))
      (step-Represents c b v e ok (omega arith) r)

-- `New` with the configuration `c`.
unfoldable pub new_from : Config → ℕ → Breaker
unfolding new
new_from c now =
    new (pos c.failure_threshold) (pos c.success_threshold) (pos c.volume_threshold) c.timeout now

pub new-Represents : (c : Config) (now : ℕ) → Represents c (new_from c now) fresh
unfolding new_from
new-Represents c now = ground arith

-- With thresholds that are not negative, those for failures and successes below 2 ^ 31, a new breaker
-- and the reference machine agree after any history of fewer than 2 ^ 31 calls: on the state, the
-- failures in a row, the successes since the probe, the time of the failure that holds it open, and
-- both totals.
pub run-Represents :
    (c : Config) (now : ℕ) (es : List Event)
    → IsConfig c
    → length es < 2147483648
    → Represents c (run es (new_from c now)) (spec_run c es fresh)
run-Represents c now es ok small =
    run_from-Represents c es (new_from c now) fresh ok (omega arith) (new-Represents c now)
