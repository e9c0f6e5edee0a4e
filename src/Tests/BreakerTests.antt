-- ===== src/Tests/BreakerTests.antt =====
-- Lives of one breaker (breaker/breaker.go).
use go_rpc_gateway.Prelude.{
  ℕ, suc, ◌≡◌, refl, false, ◌&&◌, List, [], ◌∷◌, map, length, leb, if◌then◌else◌, arith,
}
use go_rpc_gateway.Prelude.Int.{pos}
use go_rpc_gateway.Prelude.Words.{int32, add_int32, add_int64}
use go_rpc_gateway.Breaker
use go_rpc_gateway.Breaker.{Breaker, new, allow, transition_to}
use go_rpc_gateway.Breaker.Events.{Event, allowed, succeeded, failed, step, run}
use go_rpc_gateway.Breaker.Contract.{Config, fresh, spec_run}
use go_rpc_gateway.Breaker.Refinement.{Represents, IsConfig, new_from, run-Represents}
use go_rpc_gateway.Breaker.Behaviour.{run_failures, run-allow_rejects}
use go_rpc_gateway.Breaker.Interleaving.{Verdict, verdict, ◌⟶◌, Trace, recovered, stale_probe}

-- Three failures of three requests open it, two successes close it, after 10 nanoseconds.
abbrev config : Config
config = record {
  failure_threshold = 3;
  success_threshold = 2;
  volume_threshold = 3;
  timeout = pos 10;
}

config-IsConfig : IsConfig config
config-IsConfig = record { failure_small = omega arith; success_small = omega arith }

abbrev history : List Event
history = failed 1 ∷ failed 2 ∷ failed 3 ∷ allowed 9 ∷ allowed 14 ∷ succeeded 15 ∷ succeeded 16 ∷ []

history_closes : (run history (new_from config 0)).state ≡ Breaker.closed
unfolding run step new_from int32 add_int32 add_int64
history_closes = refl

run-Represents_example :
    Represents config (run history (new_from config 0)) (spec_run config history fresh)
run-Represents_example = run-Represents config 0 history config-IsConfig (omega arith)

run_failures_example : (run (map failed (1 ∷ 2 ∷ 3 ∷ [])) (new_from config 0)).state ≡ (
    if leb 3 (suc (length {A = ℕ} (2 ∷ 3 ∷ []))) && leb 3 (suc (length {A = ℕ} (2 ∷ 3 ∷ [])))
    then Breaker.opened
    else Breaker.closed)
run_failures_example = run_failures config 0 1 (2 ∷ 3 ∷ []) config-IsConfig (omega arith)

abbrev tripped : Breaker
tripped = record {
  state = Breaker.opened;
  failure_threshold = pos 3;
  success_threshold = pos 2;
  timeout = pos 10;
  volume_threshold = pos 3;
  failure_count = pos 3;
  success_count = pos 0;
  total_requests = pos 3;
  failed_requests = pos 3;
  last_failure_time = 3;
  last_success_time = 0;
  last_state_change_at = 3;
}

run-allow_rejects_example :
    allow 12 (run (allowed 5 ∷ failed 6 ∷ succeeded 7 ∷ []) tripped)
    ≡ (run (allowed 5 ∷ failed 6 ∷ succeeded 7 ∷ []) tripped, false)
run-allow_rejects_example =
    run-allow_rejects 3 10 12 (allowed 5 ∷ failed 6 ∷ succeeded 7 ∷ []) tripped refl (omega arith)
      refl (omega arith) (omega arith)

abbrev probing : Breaker
probing = record tripped { state = Breaker.half_open; failure_count = pos 0 }

tripped_probes : verdict 14 tripped ≡ Verdict.probe
unfolding verdict
tripped_probes = refl

stale_probe_example :
    Trace
      (map succeeded (15 ∷ 16 ∷ []))
      (record { breaker = tripped; probing = 0 })
      (record { breaker = recovered 14 (15 ∷ 16 ∷ []) tripped; probing = 1 })
    × ((recovered 14 (15 ∷ 16 ∷ []) tripped).state ≡ Breaker.closed)
    × (record { breaker = recovered 14 (15 ∷ 16 ∷ []) tripped; probing = 1 } ⟶ record {
      breaker = transition_to Breaker.half_open 20 (recovered 14 (15 ∷ 16 ∷ []) tripped);
      probing = 0;
    })
    × ((transition_to Breaker.half_open 20 (recovered 14 (15 ∷ 16 ∷ []) tripped)).state
        ≡ Breaker.half_open)
stale_probe_example =
    stale_probe tripped 14 20 2 (15 ∷ 16 ∷ []) tripped_probes refl (omega arith) (omega arith) refl
