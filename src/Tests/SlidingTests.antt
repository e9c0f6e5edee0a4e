-- ===== src/Tests/SlidingTests.antt =====
-- middleware/ratelimit.go: the sliding window limiter at work, with numbers that nothing rounds.
use go_rpc_gateway.Prelude.{◌≡◌, refl, true, false, some, [], ◌∷◌}
use go_rpc_gateway.Prelude.Int.{ℤ, pos, ◌+ℤ◌, ◌*ℤ◌}
use go_rpc_gateway.Prelude.Words.{quot}
use go_rpc_gateway.RateLimit.Config.{LimitRule}
use go_rpc_gateway.RateLimit.SlidingWindow.{no_keys, Numbers, allow, answers}
use go_rpc_gateway.RateLimit.SlidingWindow.Laws.{Within, allow-Within, answers_subsecond}

abbrev numbers : Numbers
numbers = record { tonumber = λ z. z; tostring = λ z. z; seconds = λ z. quot z 1000000000 }

abbrev one_each : ℤ → LimitRule
one_each window = record {
  requests_per_second = pos 1;
  burst_size = pos 1;
  window_size = window;
  block_duration = pos 0;
}

-- Two requests at once, at a limit of one in half a second.
answers_subsecond_example :
    answers numbers
      (one_each (pos 500000000))
      ((pos 7000000000, some (pos 7) ∷ []) ∷ (pos 7000000000, some (pos 7) ∷ []) ∷ [])
      no_keys
    ≡ (no_keys, some true ∷ some true ∷ [])
unfolding quot
answers_subsecond_example =
    answers_subsecond numbers (one_each (pos 500000000))
      ((pos 7000000000, some (pos 7) ∷ []) ∷ (pos 7000000000, some (pos 7) ∷ []) ∷ []) refl refl tt

allow-Within_example :
    Within numbers
      (pos 7000000000)
      (one_each (pos 1000000000))
      (allow numbers (pos 7000000000) (one_each (pos 1000000000)) (some (pos 7) ∷ []) no_keys).0
unfolding allow quot
allow-Within_example =
    allow-Within numbers (pos 7000000000) (one_each (pos 1000000000)) (some (pos 7) ∷ []) no_keys
      refl

-- At a limit of one in a second, the second of two requests at once is refused.
second_refused :
    (answers numbers
      (one_each (pos 1000000000))
      ((pos 7000000000, some (pos 7) ∷ []) ∷ (pos 7000000000, some (pos 7) ∷ []) ∷ [])
      no_keys).1
    ≡ some true ∷ some false ∷ []
unfolding answers quot ◌*ℤ◌ ◌+ℤ◌
second_refused = refl
