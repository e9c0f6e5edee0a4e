-- ===== src/Tests/LimiterTests.antt =====
-- The limiters of middleware/ratelimit.go at work.
use go_rpc_gateway.Prelude.{
  ℕ, ◌+◌, ◌*◌, ◌≤◌, ◌≡◌, refl, false, some, [], ◌∷◌, sum, min, leb, arith, if◌then◌else◌,
}
use go_rpc_gateway.Prelude.Int.{pos, leb_ℤ, ◌+ℤ◌, ◌-ℤ◌, ◌*ℤ◌}
use go_rpc_gateway.Prelude.Words.{int64, quot, rem}
use go_rpc_gateway.RateLimit.Config.{LimitRule}
use go_rpc_gateway.RateLimit.Strategies.{Makers}
use go_rpc_gateway.RateLimit.TokenBucket.{
  Mathx, billion, AtomicTokenBucket, new_bucket, add_tokens, refilled, round, take_token,
}
use go_rpc_gateway.RateLimit.TokenBucket.Bounds.{IsRule, Holds, serve, serve-new_bucket-le}
use go_rpc_gateway.RateLimit.TokenBucket.Refill.{take_token_exact, take_token_overflow}
use go_rpc_gateway.RateLimit.FixedWindow.{AtomicCounter}

abbrev mathx : Mathx
mathx = record {
  at_least = λ a b. if leb_ℤ a b then a else b;
  at_most = λ a b. if leb_ℤ a b then b else a;
  at_least_min = λ a b. refl;
  at_most_max = λ a b. refl;
}

abbrev rule_of : ℕ → ℕ → LimitRule
rule_of burst rate = record {
  requests_per_second = pos rate;
  burst_size = pos burst;
  window_size = pos 1000;
  block_duration = pos 0;
}

rule_of-IsRule : IsRule (rule_of 2 5) 2 5
rule_of-IsRule = ground arith

serve-new_bucket-le_example :
    serve mathx 2 5 7 (0 ∷ 0 ∷ 0 ∷ 200000000 ∷ []) (new_bucket (rule_of 2 5) (pos 7)) * billion
    ≤ 2 * billion + sum (0 ∷ 0 ∷ 0 ∷ 200000000 ∷ []) * 5
serve-new_bucket-le_example =
    serve-new_bucket-le mathx 2 5 (rule_of 2 5) 7 (0 ∷ 0 ∷ 0 ∷ 200000000 ∷ []) rule_of-IsRule
      (omega arith)

abbrev bucket : ℕ → ℕ → AtomicTokenBucket
bucket rate tokens = record {
  tokens = pos tokens;
  max_tokens = pos 20;
  refill_rate = pos (rate * billion);
  last_refill = pos 100;
}

bucket-Holds :
    (rate tokens : ℕ) → tokens ≤ 20 * billion → Holds 20 rate (bucket rate tokens) tokens 100
bucket-Holds rate tokens h = ground arith

take_token_exact_example :
    (take_token mathx (pos (100 + 950000000)) [] (bucket 9 5000000000)).1
    ≡ some (leb billion (min (20 * billion) (5000000000 + 950000000 * 9)))
take_token_exact_example =
    take_token_exact mathx 20 9 (bucket 9 5000000000) 5000000000 100 950000000
      (bucket-Holds 9 5000000000 (omega arith)) (omega arith) (omega arith) (omega arith)

-- Five tokens, ten a second, 950 milliseconds later: refused.
take_token_overflow_example :
    (take_token mathx (pos (100 + 950000000)) [] (bucket 10 5000000000)).1 ≡ some false
take_token_overflow_example =
    take_token_overflow mathx 20 10 (bucket 10 5000000000) 5000000000 100 950000000
      (bucket-Holds 10 5000000000 (omega arith)) (omega arith) (omega arith) (omega arith)

overflow_run : (take_token mathx (pos 950000100) [] (bucket 10 5000000000)).1 ≡ some false
unfolding take_token round refilled add_tokens int64 quot rem ◌+ℤ◌ ◌-ℤ◌ ◌*ℤ◌
overflow_run = refl

-- Another goroutine empties the bucket within the first round.
abbrev emptied : AtomicTokenBucket → AtomicTokenBucket
emptied b = record b { tokens = pos 0 }

abbrev counter : AtomicCounter
counter = record { count = pos 1; reset_time = pos 1000 }

abbrev makers : Makers ℕ
makers = record { new_sliding_window = 1; new_fixed_window = 2; new_token_bucket = 3 }
