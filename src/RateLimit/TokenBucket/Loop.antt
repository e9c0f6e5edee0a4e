-- ===== src/RateLimit/TokenBucket/Loop.antt =====
-- The retry loop of the token bucket in middleware/ratelimit.go, with other goroutines at work.
use go_rpc_gateway.Prelude.{◌≡◌, ◌&&◌, Bool, true, false, Option, some, List, [], ◌∷◌}
use go_rpc_gateway.Prelude.Int.{ℤ, pos, ltb_ℤ, leb_ℤ, ◌-ℤ◌}
use go_rpc_gateway.Prelude.Words.{int64}
use go_rpc_gateway.RateLimit.TokenBucket.{Mathx, billion, AtomicTokenBucket, refilled}

module _ (x : Mathx) where
  -- The loop, started at the bucket `b`, answers in a round that reads the bucket as `seen` and meets
  -- it as `cur` at its write: a round of the list starts where the others left the bucket in the round
  -- before, and meets what they make of it; the last one is alone.
  pub data RoundOf
      : List (AtomicTokenBucket → AtomicTokenBucket)
        → AtomicTokenBucket
        → AtomicTokenBucket
        → AtomicTokenBucket
        → Type 0 where
    alone : {b : AtomicTokenBucket} → RoundOf [] b b b
    first :
        {f : AtomicTokenBucket → AtomicTokenBucket}
        {fs : List (AtomicTokenBucket → AtomicTokenBucket)} {b : AtomicTokenBucket}
        → RoundOf (f ∷ fs) b b (f b)
    later :
        {f : AtomicTokenBucket → AtomicTokenBucket}
        {fs : List (AtomicTokenBucket → AtomicTokenBucket)} {b seen cur : AtomicTokenBucket}
        → RoundOf fs (f b) seen cur
        → RoundOf (f ∷ fs) b seen cur

  -- An answer of the loop: the bucket that a round of it has read, refilled, covers a token or not, and
  -- the bucket that this round meets at its write is left with the rest. To admit, the round has to
  -- meet the tokens that it has read.
  pub data Answered (now : ℤ) (others : List (AtomicTokenBucket → AtomicTokenBucket))
      (b : AtomicTokenBucket) (r : AtomicTokenBucket × Option Bool) : Type 0 where
    admitted :
        (seen cur : AtomicTokenBucket)
        → RoundOf others b seen cur
        → (leb_ℤ cur.tokens seen.tokens && leb_ℤ seen.tokens cur.tokens) ≡ true
        → ltb_ℤ (refilled x now seen) (pos billion) ≡ false
        → r ≡ (
          record cur { tokens = int64 (refilled x now seen -ℤ pos billion); last_refill = now },
          some true,
        )
        → Answered now others b r
    refused :
        (seen cur : AtomicTokenBucket)
        → RoundOf others b seen cur
        → ltb_ℤ (refilled x now seen) (pos billion) ≡ true
        → r ≡ (record cur { tokens = refilled x now seen; last_refill = now }, some false)
        → Answered now others b r
