-- ===== src/Breaker/Interleaving.antt =====
-- breaker/breaker.go under several goroutines: `Allow` tests the timeout under the read lock, gives
-- the lock up, and only then calls `transitionTo`, which takes the write lock and tests nothing.
-- The other calls are taken as atomic.
use go_rpc_gateway.Prelude.{
  ℕ, suc, ◌≡◌, ◌<◌, refl, ◌∙◌, Bool, true, false, List, [], ◌∷◌, map, length, if◌then◌else◌, arith,
}
use go_rpc_gateway.Prelude.Int.{pos, ltb_ℤ}
use go_rpc_gateway.Breaker.{State, closed, opened, half_open, Breaker, since, allow, transition_to}
use go_rpc_gateway.Breaker.Events.{Event, succeeded, step, run}
use go_rpc_gateway.Breaker.Behaviour.{run_successes}

-- What `Allow` decides under the read lock, before it may call `transitionTo`.
pub data Verdict : Type 0 where
  let_in turn_away probe : Verdict

verdict_in : State → ℕ → Breaker → Verdict
verdict_in closed now b = let_in
verdict_in opened now b =
    if ltb_ℤ b.timeout (since now b.last_failure_time) then probe else turn_away
verdict_in half_open now b = let_in

unfoldable pub verdict : ℕ → Breaker → Verdict
unfolding verdict_in
verdict now b = verdict_in b.state now b

abbrev pub settle : ℕ → Verdict → Breaker → Breaker
settle now probe b = transition_to half_open now b
settle now let_in b = b
settle now turn_away b = b

abbrev pub lets_in : Verdict → Bool
lets_in turn_away = false
lets_in _ = true

-- With no goroutine between its two halves `Allow` is the call of the sequential model.
pub allow_split :
    (now : ℕ) (b : Breaker) → allow now b ≡ (settle now (verdict now b) b, lets_in (verdict now b))
unfolding allow verdict
allow_split now b = ground arith

-- The breaker, and the goroutines that stand between the two halves of `Allow`.
pub record Shared : Type 0 where
  pub breaker : Breaker
  pub probing : ℕ

-- The two halves of `Allow` in a goroutine that probes. None of the other calls happens in them.
infix 40 ◌⟶◌
pub data ◌⟶◌ (s : Shared) (t : Shared) : Type 0 where
  decide :
      (now : ℕ) → verdict now s.breaker ≡ probe → t ≡ record s { probing = suc s.probing } → s ⟶ t
  move :
      (now n : ℕ)
      → s.probing ≡ suc n
      → t ≡ record { breaker = transition_to half_open now s.breaker; probing = n }
      → s ⟶ t

-- A run of several goroutines, with the atomic calls that happen in it, in their order.
pub data Trace : List Event → Shared → Shared → Type 0 where
  done : {s : Shared} → Trace [] s s
  half : {es : List Event} {s t u : Shared} → s ⟶ t → Trace es t u → Trace es s u
  called :
      {es : List Event} {s u : Shared} (e : Event)
      → Trace es (record s { breaker = step e s.breaker }) u
      → Trace (e ∷ es) s u

calls :
    (es : List Event) (b : Breaker) (n : ℕ)
    → Trace es (record { breaker = b; probing = n }) (record { breaker = run es b; probing = n })
unfolding run
calls [] b n = done
calls (e ∷ es) b n = called e (calls es (step e b) n)

-- The breaker after a probe at `now` and successes at the given times.
abbrev pub recovered : ℕ → List ℕ → Breaker → Breaker
recovered now ts b = run (map succeeded ts) (transition_to half_open now b)

-- Two goroutines are in `Allow` of an open breaker whose timeout has passed, with a success threshold
-- m between 1 and 2 ^ 31 - 1. There is a run whose only other calls are m successes, with no failure
-- and no reset, after which the breaker is closed and one of the two has still to move; and whenever
-- that one moves, it takes the breaker from closed to half-open.
pub stale_probe :
    (b : Breaker) (now later m : ℕ) (ts : List ℕ)
    → verdict now b ≡ probe
    → b.success_threshold ≡ pos m
    → 0 < m
    → m < 2147483648
    → length ts ≡ m
    → Trace
        (map succeeded ts)
        (record { breaker = b; probing = 0 })
        (record { breaker = recovered now ts b; probing = 1 })
      × ((recovered now ts b).state ≡ closed)
      × (record { breaker = recovered now ts b; probing = 1 }
          ⟶ record { breaker = transition_to half_open later (recovered now ts b); probing = 0 })
      × ((transition_to half_open later (recovered now ts b)).state ≡ half_open)
unfolding transition_to
stale_probe b now later m ts v e lo hi len =
    let c = transition_to half_open now b in
    (
      half (decide now v refl)
          (half (decide now v refl) (half (move now 1 refl refl) (calls (map succeeded ts) c 1))),
      run_successes m 0 ts c refl e refl lo hi ∙ ground arith,
      move later 0 refl refl,
      refl,
    )
