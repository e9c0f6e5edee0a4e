-- ===== src/RateLimit/Strategies.antt =====
-- middleware/ratelimit.go: which limiter serves a strategy. `redis` says whether global.REDIS is
-- set.
use go_rpc_gateway.Prelude.{
  ◌≡◌, ◌↔◌, inl, inr, Option-cases, false, refl, Bool, true, Option, none, some, if◌then◌else◌,
  arith,
}
use go_rpc_gateway.RateLimit.Config.{
  Strategy, sliding_window, fixed_window, token_bucket, unset, unknown,
}

-- Without Redis the sliding window falls back to the token bucket.
unfoldable pub resolve_strategy : Bool → Strategy → Strategy
resolve_strategy redis sliding_window = if redis then sliding_window else token_bucket
resolve_strategy redis fixed_window = fixed_window
resolve_strategy redis _ = token_bucket

-- Without Redis no strategy is served by a sliding window limiter; with it, only the sliding
-- window strategy is. Every strategy that is not one of the three is served by a token bucket.
pub resolve_strategy_sliding_iff :
    (redis : Bool) (strategy : Strategy)
    → (resolve_strategy redis strategy ≡ sliding_window)
      ↔ ((redis ≡ true) × (strategy ≡ sliding_window))
unfolding resolve_strategy
resolve_strategy_sliding_iff redis strategy = ground arith

-- The map from resolved strategies to limiters.
pub record LimiterSet (L : Type 0) : Type 0 where
  pub sliding : Option L
  pub fixed : Option L
  pub bucket : Option L

-- The limiters that `newRateLimiter` makes, one kind for each strategy that can be resolved.
pub record Makers (L : Type 0) : Type 0 where
  pub new_sliding_window : L
  pub new_fixed_window : L
  pub new_token_bucket : L

module _ {L : Type 0} where
  abbrev pub limiter_at : Strategy → LimiterSet L → Option L
  limiter_at sliding_window s = s.sliding
  limiter_at fixed_window s = s.fixed
  limiter_at token_bucket s = s.bucket
  limiter_at unset s = none
  limiter_at unknown s = none

  abbrev pub put_limiter : Strategy → L → LimiterSet L → LimiterSet L
  put_limiter sliding_window l s = record s { sliding = some l }
  put_limiter fixed_window l s = record s { fixed = some l }
  put_limiter token_bucket l s = record s { bucket = some l }
  put_limiter unset l s = s
  put_limiter unknown l s = s

  limiter_for : Strategy → Makers L → L
  limiter_for sliding_window k = k.new_sliding_window
  limiter_for fixed_window k = k.new_fixed_window
  limiter_for _ k = k.new_token_bucket

  -- `newRateLimiter`, which resolves the strategy once more.
  unfoldable pub new_rate_limiter : Bool → Makers L → Strategy → L
  unfolding limiter_for
  new_rate_limiter redis k strategy = limiter_for (resolve_strategy redis strategy) k

  empty_set : LimiterSet L
  empty_set = record { sliding = none; fixed = none; bucket = none }

  -- `newRateLimiterSet`
  unfoldable pub new_limiter_set : Bool → Strategy → Option L → LimiterSet L
  unfolding empty_set
  new_limiter_set redis strategy default_limiter = elim default_limiter [
    | some l ↦ put_limiter (resolve_strategy redis strategy) l empty_set
    | none ↦ empty_set
  ]

  -- `rateLimiterSet.get`
  unfoldable pub get_limiter : Bool → Makers L → Strategy → LimiterSet L → LimiterSet L × L
  get_limiter redis k strategy s =
      let resolved = resolve_strategy redis strategy in
      elim (limiter_at resolved s) [
        | some l ↦ (s, l)
        | none ↦ (
          put_limiter resolved (new_rate_limiter redis k resolved) s,
          new_rate_limiter redis k resolved,
        )
      ]

  resolved_at :
      (redis : Bool) (strategy : Strategy) (l : L) (s : LimiterSet L)
      → limiter_at
          (resolve_strategy redis strategy)
          (put_limiter (resolve_strategy redis strategy) l s)
        ≡ some l
  unfolding resolve_strategy
  resolved_at true sliding_window l s = refl
  resolved_at false sliding_window l s = refl
  resolved_at redis fixed_window l s = refl
  resolved_at redis token_bucket l s = refl
  resolved_at redis unset l s = refl
  resolved_at redis unknown l s = refl

  -- Strategies that resolve to the same one share one limiter: once either has been asked for, the
  -- other gets that limiter and nothing new is made.
  pub get_limiter_shared :
      (redis : Bool) (k : Makers L) (a b : Strategy) (s : LimiterSet L)
      → resolve_strategy redis b ≡ resolve_strategy redis a
      → get_limiter redis k b (get_limiter redis k a s).0 ≡ get_limiter redis k a s
  unfolding get_limiter
  get_limiter_shared redis k a b s e =
      elim (Option-cases (limiter_at (resolve_strategy redis a) s)) [
        | inl missing ↦ ground (
          arith,
          e,
          missing,
          resolved_at redis a (new_rate_limiter redis k (resolve_strategy redis a)) s,
        )
        | inr (l, found) ↦ ground (arith, e, found)
      ]
