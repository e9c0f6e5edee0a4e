-- ===== src/Breaker/Contract.antt =====
-- What a circuit breaker promises, without machine words: the reference machine of
-- breaker/breaker.go. Its phase holds the one number that counts in each state.
use go_rpc_gateway.Prelude.{ℕ, ◌+◌, ◌&&◌, List, [], ◌∷◌, leb, if◌then◌else◌}
use go_rpc_gateway.Prelude.Int.{ℤ, ltb_ℤ}
use go_rpc_gateway.Breaker.{since}
use go_rpc_gateway.Breaker.Events.{Event, allowed, succeeded, failed, cleared}

pub record Config : Type 0 where
  pub failure_threshold : ℕ
  pub success_threshold : ℕ
  pub volume_threshold : ℕ
  pub timeout : ℤ

-- `closed n`: n failures in a row. `opened t`: the last failure came at t. `half_open n`: n
-- successes since the probe.
pub data Phase : Type 0 where
  closed opened half_open : ℕ → Phase

pub record View : Type 0 where
  pub phase : Phase
  pub total : ℕ
  pub failures : ℕ

abbrev pub fresh : View
fresh = record { phase = closed 0; total = 0; failures = 0 }

abbrev pub after_allow : Config → ℕ → Phase → Phase
after_allow c now (opened t) = if ltb_ℤ c.timeout (since now t) then half_open 0 else opened t
after_allow c now p = p

abbrev pub after_success : Config → Phase → Phase
after_success c (closed n) = closed 0
after_success c (opened t) = opened t
after_success c (half_open n) =
    if leb c.success_threshold (n + 1) then closed 0 else half_open (n + 1)

abbrev pub after_failure : Config → ℕ → ℕ → Phase → Phase
after_failure c now total (closed n) =
    if leb c.failure_threshold (n + 1) && leb c.volume_threshold total
    then opened now
    else closed (n + 1)
after_failure c now total p = opened now

unfoldable pub spec_step : Config → Event → View → View
spec_step c (allowed now) v = record v { phase = after_allow c now v.phase }
spec_step c (succeeded now) v = record v { phase = after_success c v.phase; total = v.total + 1 }
spec_step c (failed now) v = record {
  phase = after_failure c now (v.total + 1) v.phase;
  total = v.total + 1;
  failures = v.failures + 1;
}
spec_step c (cleared now) v = fresh

unfoldable pub spec_run : Config → List Event → View → View
spec_run c [] v = v
spec_run c (e ∷ es) v = spec_run c es (spec_step c e v)
