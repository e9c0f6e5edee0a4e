-- ===== src/RateLimit/FixedWindow/Laws.antt =====
-- How many requests the fixed window of middleware/ratelimit.go lets in, and that its cleanup does
-- not show.
use go_rpc_gateway.Prelude.{
  ℕ, ◌+◌, ◌-◌, ◌<◌, ◌≡◌, refl, true, List, [], ◌∷◌, length, All, min, arith, if◌then◌else◌,
}
use go_rpc_gateway.Prelude.Int.{ℤ, pos, ◌+ℤ◌, ◌≤ℤ◌}
use go_rpc_gateway.Prelude.Words.{int64, add_int64-pos}
use go_rpc_gateway.RateLimit.Config.{LimitRule}
use go_rpc_gateway.RateLimit.FixedWindow.{AtomicCounter, new_counter, count_request, is_stale}

-- The number of requests that are allowed, of requests at the given times.
pub allowed : LimitRule → List ℤ → AtomicCounter → ℕ
allowed rule [] c = 0
allowed rule (now ∷ ts) c =
    let r = count_request now rule c in (if r.1 then 1 else 0) + allowed rule ts r.0

-- Within one window a counter that stands at `n` lets in exactly what is left of the limit: the
-- first requests up to it, and none after. No request comes after the reset time.
pub allowed_window :
    (rule : LimitRule) (limit n : ℕ) (ts : List ℤ) (c : AtomicCounter)
    → rule.requests_per_second ≡ pos limit
    → c.count ≡ pos n
    → n + length ts < 9223372036854775808
    → All (λ now. now ≤ℤ c.reset_time) ts
    → allowed rule ts c ≡ min (length ts) (limit - n)
unfolding allowed count_request
allowed_window rule limit n [] c e s fits h = omega arith
allowed_window rule limit n (now ∷ ts) c e s fits h = ground (
  arith,
  add_int64-pos n,
  allowed_window rule limit (n + 1) ts (record c { count = pos (n + 1) }) e refl,
)

-- A counter that `cleanup` deletes would have been reset by the next request anyway: with a limit of
-- at least 1, a window that does not end before it starts, and an interval that is not negative,
-- the request gets the same answer and leaves the same counter whether the counter it meets is the
-- stale one or a new one.
pub count_request-stale :
    (rule : LimitRule) (clean_interval tick now : ℤ) (c : AtomicCounter)
    → pos 1 ≤ℤ rule.requests_per_second
    → now ≤ℤ int64 (now +ℤ rule.window_size)
    → c.reset_time ≤ℤ int64 (c.reset_time +ℤ clean_interval)
    → is_stale clean_interval tick c ≡ true
    → tick ≤ℤ now
    → count_request now rule c ≡ count_request now rule (new_counter now rule)
unfolding count_request new_counter
count_request-stale rule clean_interval tick now c one window interval stale later =
    ground (arith, add_int64-pos 0)
