-- ===== src/Breaker/Behaviour.antt =====
-- When the breaker of breaker/breaker.go opens, how long it stays open, and when it closes again.
use go_rpc_gateway.Prelude.{
  ℕ, suc, ◌+◌, ◌≤◌, ◌<◌, ◌≡◌, refl, ◌∙◌, ◌⊎◌, inl, inr, false, ◌&&◌, List, [], ◌∷◌, map, length,
  leb, if◌then◌else◌, All, arith,
}
use go_rpc_gateway.Prelude.Int.{pos}
use go_rpc_gateway.Prelude.Words.{int32-pos, add_int32-pos}
use go_rpc_gateway.Breaker
use go_rpc_gateway.Breaker.{State, Breaker, allow}
use go_rpc_gateway.Breaker.Events.{Event, allowed, succeeded, failed, cleared, step, run}
use go_rpc_gateway.Breaker.Contract.{Config, Phase, closed, opened, half_open, spec_step, spec_run}
use go_rpc_gateway.Breaker.Refinement.{Fits, IsConfig, new_from, run-Represents}

abbrev state_of : Phase → State
state_of (closed k) = Breaker.closed
state_of (opened t) = Breaker.opened
state_of (half_open k) = Breaker.half_open

Fits-state : (p : Phase) (b : Breaker) (n : ℕ) → Fits p b n → b.state ≡ state_of p
Fits-state (closed k) b n h = h.0
Fits-state (opened t) b n h = h.0
Fits-state (half_open k) b n h = h.0

spec_run_opened :
    (c : Config) (ts : List ℕ) (t n f : ℕ)
    → state_of
        (spec_run c (map failed ts) (record { phase = opened t; total = n; failures = f })).phase
      ≡ Breaker.opened
unfolding spec_run spec_step
spec_run_opened c [] t n f = refl
spec_run_opened c (u ∷ ts) t n f = spec_run_opened c ts u (n + 1) (f + 1)

abbrev tripped : Config → ℕ → ℕ → State
tripped c k n =
    if leb c.failure_threshold k && leb c.volume_threshold n then Breaker.opened else Breaker.closed

spec_run-tripped :
    (c : Config) (t : ℕ) (ts : List ℕ) (k n f : ℕ)
    → state_of
        (spec_run c
          (map failed (t ∷ ts))
          (record { phase = closed k; total = n; failures = f })).phase
      ≡ tripped c (k + suc (length ts)) (n + suc (length ts))
unfolding spec_run spec_step
spec_run-tripped c t [] k n f = ground arith
spec_run-tripped c t (u ∷ ts) k n f = ground (
  arith,
  spec_run_opened c ts u (n + 1 + 1) (f + 1 + 1),
  spec_run-tripped c u ts (k + 1) (n + 1) (f + 1),
)

length-map_failed : (ts : List ℕ) → length (map failed ts) ≡ length ts
length-map_failed [] = refl
length-map_failed (t ∷ ts) = omega (arith, length-map_failed ts)

-- A new breaker to which only failures are reported, at least one and fewer than 2 ^ 31, is open
-- exactly when their number has reached both the failure threshold and the volume threshold, and
-- is closed before. The thresholds are non-negative, the failure threshold fits an int32.
pub run_failures :
    (c : Config) (now t : ℕ) (ts : List ℕ)
    → IsConfig c
    → suc (length ts) < 2147483648
    → (run (map failed (t ∷ ts)) (new_from c now)).state ≡ (
        if leb c.failure_threshold (suc (length ts)) && leb c.volume_threshold (suc (length ts))
        then Breaker.opened
        else Breaker.closed)
run_failures c now t ts ok small =
    let r = run-Represents c now (map failed (t ∷ ts)) ok (omega (arith, length-map_failed ts)) in
    let s : (run (map failed (t ∷ ts)) (new_from c now)).state
        ≡ tripped c (0 + suc (length ts)) (0 + suc (length ts)) =
      Fits-state _ _ _ r.fits ∙ spec_run-tripped c t ts 0 0 0 in
    ground (arith, s)

-- What may happen to an open breaker within its timeout after a failure at `t0`: requests that ask
-- no later than the timeout allows, and reports of requests that were under way.
abbrev pub Within : ℕ → ℕ → Event → Type 0
Within t0 timeout (allowed now) = now ≤ t0 + timeout
Within t0 timeout (succeeded now) = Unit
Within t0 timeout (failed now) = t0 ≤ now
Within t0 timeout (cleared now) = ⊥

record HeldOpen (t0 timeout : ℕ) (b : Breaker) : Type 0 where
  is_open : b.state ≡ Breaker.opened
  failed_since : t0 ≤ b.last_failure_time
  waits : b.timeout ≡ pos timeout

step-HeldOpen :
    (t0 timeout : ℕ) (e : Event) (b : Breaker)
    → Within t0 timeout e
    → HeldOpen t0 timeout b
    → HeldOpen t0 timeout (step e b)
unfolding step
step-HeldOpen t0 timeout (allowed now) b w h = ground arith
step-HeldOpen t0 timeout (succeeded now) b w h = ground arith
step-HeldOpen t0 timeout (failed now) b w h = ground arith
step-HeldOpen t0 timeout (cleared now) b w h = absurd w

run-HeldOpen :
    (t0 timeout : ℕ) (es : List Event) (b : Breaker)
    → All (Within t0 timeout) es
    → HeldOpen t0 timeout b
    → HeldOpen t0 timeout (run es b)
unfolding run
run-HeldOpen t0 timeout [] b ws h = h
run-HeldOpen t0 timeout (e ∷ es) b ws h =
    run-HeldOpen t0 timeout es (step e b) ws.1 (step-HeldOpen t0 timeout e b ws.0 h)

-- A breaker that is open with its last failure at `t0` or later rejects a request that asks at
-- `now`, no later than `t0` plus the timeout, and is not changed by it, after any history of
-- requests within that time and reports of requests under way, without a reset.
pub run-allow_rejects :
    (t0 timeout now : ℕ) (es : List Event) (b : Breaker)
    → b.state ≡ Breaker.opened
    → t0 ≤ b.last_failure_time
    → b.timeout ≡ pos timeout
    → All (Within t0 timeout) es
    → now ≤ t0 + timeout
    → allow now (run es b) ≡ (run es b, false)
unfolding allow
run-allow_rejects t0 timeout now es b o l w ws h =
    let r : HeldOpen t0 timeout (run es b) =
      run-HeldOpen t0 timeout es b ws (record { is_open = o; failed_since = l; waits = w }) in
    ground (arith, r.is_open, r.failed_since, r.waits)

run_successes_closed :
    (ts : List ℕ) (b : Breaker)
    → b.state ≡ Breaker.closed
    → (run (map succeeded ts) b).state ≡ Breaker.closed
unfolding run step
run_successes_closed [] b h = h
run_successes_closed (t ∷ ts) b h = run_successes_closed ts (step (succeeded t) b) (ground arith)

record Probing (m k : ℕ) (b : Breaker) : Type 0 where
  probing : b.state ≡ Breaker.half_open
  threshold : b.success_threshold ≡ pos m
  counted : b.success_count ≡ pos k

step-Probing :
    (m k t : ℕ) (b : Breaker)
    → Probing m k b
    → k < m
    → m < 2147483648
    → ((m ≡ k + 1) × ((step (succeeded t) b).state ≡ Breaker.closed))
      ⊎ ((k + 1 < m) × Probing m (k + 1) (step (succeeded t) b))
unfolding step
step-Probing m k t b p lt small = ground (arith, add_int32-pos k, int32-pos m)

run_successes_from :
    (m k : ℕ) (ts : List ℕ) (b : Breaker)
    → Probing m k b
    → k < m
    → m < 2147483648
    → (run (map succeeded ts) b).state
      ≡ (if leb m (k + length ts) then Breaker.closed else Breaker.half_open)
unfolding run
run_successes_from m k [] b p lt small = ground arith
run_successes_from m k (t ∷ ts) b p lt small = elim (step-Probing m k t b p lt small) [
  | inl (last, done) ↦ ground (arith, run_successes_closed ts (step (succeeded t) b) done)
  | inr (more, next) ↦
      ground (arith, run_successes_from m (k + 1) ts (step (succeeded t) b) next more small)
]

-- In the half-open state with `k` successes counted, fewer than the success threshold `m`, the
-- breaker is closed exactly when the successes reported have reached the threshold, and half-open
-- before. The threshold fits an int32.
pub run_successes :
    (m k : ℕ) (ts : List ℕ) (b : Breaker)
    → b.state ≡ Breaker.half_open
    → b.success_threshold ≡ pos m
    → b.success_count ≡ pos k
    → k < m
    → m < 2147483648
    → (run (map succeeded ts) b).state
      ≡ (if leb m (k + length ts) then Breaker.closed else Breaker.half_open)
run_successes m k ts b h e s lt small =
    run_successes_from m k ts b (record { probing = h; threshold = e; counted = s }) lt small
