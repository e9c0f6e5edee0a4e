-- ===== src/RateLimit/TokenBucket/Bounds.antt =====
-- The token bucket of middleware/ratelimit.go never admits more than its burst and its rate, and
-- never leaves the range of its tokens, whatever overflows on the way.
use native.Mathlib.Decide.{dec_lt}
use go_rpc_gateway.Prelude.{
  ℕ, min, ◌+◌, ◌-◌, ◌*◌, ◌≤◌, ◌<◌, ◌≡◌, Bool, true, false, Option, some, List, [], ◌∷◌,
  if◌then◌else◌, arith, ◌∙◌, sum,
}
use go_rpc_gateway.Prelude.Int.{ℤ, pos, negsuc, ◌+ℤ◌, ◌≤ℤ◌}
use go_rpc_gateway.Prelude.Words.{int64, int64-pos}
use go_rpc_gateway.RateLimit.Config.{LimitRule}
use go_rpc_gateway.RateLimit.TokenBucket.{
  Mathx, new_bucket, billion, AtomicTokenBucket, add_tokens, refilled, round, take_token,
}
use go_rpc_gateway.RateLimit.TokenBucket.Wrapping.{
  pos-*, tokens_after-le, elapsed-pos, spent-pos, clamp, clamp-pos, clamp-negsuc,
}

-- A bucket of burst `burst` and rate `rate` (tokens a second) that holds `t` nano-tokens since the
-- time `l`. The numbers fit an int64.
pub record Holds (burst rate : ℕ) (b : AtomicTokenBucket) (t l : ℕ) : Type 0 where
  pub tokens : b.tokens ≡ pos t
  pub max_tokens : b.max_tokens ≡ pos burst
  pub refill_rate : b.refill_rate ≡ pos (rate * billion)
  pub last_refill : b.last_refill ≡ pos l
  pub capped : t ≤ burst * billion
  pub fits : burst * billion < 9223372036854775808

-- A number between 0 and a bound, as a signed integer.
abbrev Amount : ℤ → ℕ → ℕ → Type 0
Amount z cap most = (k : ℕ) × (z ≡ pos k) × (k ≤ cap) × (k ≤ most)

clamp-Amount :
    (x : Mathx) (most bound : ℕ) (z : ℤ) → z ≤ℤ pos bound → Amount (clamp x most z) most bound
clamp-Amount x most bound (pos n) h = (min most n, clamp-pos x most n, omega arith, omega arith)
clamp-Amount x most bound (negsuc n) h = (0, clamp-negsuc x most n, omega arith, omega arith)

-- One for a request that is admitted.
abbrev pub admissions : Option Bool → ℕ
admissions (some true) = 1
admissions _ = 0

-- A rule whose numbers are non-negative and fit an int64 as nano-tokens.
pub record IsRule (rule : LimitRule) (burst rate : ℕ) : Type 0 where
  pub burst_size : rule.burst_size ≡ pos burst
  pub requests_per_second : rule.requests_per_second ≡ pos rate
  pub burst_fits : burst * billion < 9223372036854775808
  pub rate_fits : rate * billion < 9223372036854775808

new_bucket-Holds :
    (rule : LimitRule) (burst rate l : ℕ)
    → IsRule rule burst rate
    → Holds burst rate (new_bucket rule (pos l)) (burst * billion) l
unfolding new_bucket
new_bucket-Holds rule burst rate l ok = ground (
  arith,
  pos-* burst billion,
  pos-* rate billion,
  int64-pos (burst * billion),
  int64-pos (rate * billion),
)

module _ (x : Mathx) (burst rate : ℕ) where
  pub refilled_lem :
      (b : AtomicTokenBucket) (t l d : ℕ)
      → Holds burst rate b t l
      → l + d < 9223372036854775808
      → refilled x (pos (l + d)) b
        ≡ clamp x (burst * billion) (int64 (pos t +ℤ add_tokens (pos (rate * billion)) (pos d)))
  unfolding refilled
  refilled_lem b t l d h small =
      let later : x.at_most (pos 0) (pos d) ≡ pos d =
        x.at_most_max (pos 0) (pos d) ∙ ground arith in
      rw (
        h.last_refill,
        h.tokens,
        h.max_tokens,
        h.refill_rate,
        refilled,
        elapsed-pos l d small,
        later,
        pos-* burst billion,
        int64-pos (burst * billion) h.fits,
      )

  -- What a request that comes `d` nanoseconds after the last may leave: the bucket with its new
  -- tokens, and for an admitted request a token less than it had.
  pub record After (t l d : ℕ) (r : AtomicTokenBucket × Option Bool) : Type 0 where
    pub left : ℕ
    pub admitted : Bool
    pub answer : r.1 ≡ some admitted
    pub holds : Holds burst rate r.0 left (l + d)
    pub paid : (if admitted then billion else 0) + left ≤ t + d * rate

  round-After :
      (b : AtomicTokenBucket) (t l d : ℕ)
      → Holds burst rate b t l
      → Amount (refilled x (pos (l + d)) b) (burst * billion) (t + d * rate)
      → After t l d (round x (pos (l + d)) b b)
  unfolding round
  round-After b t l d h (k, e, low, most) = elim (dec_lt k billion) [
    | yes p ↦ record {
      left = k;
      admitted = false;
      answer = ground arith;
      holds = ground arith;
      paid = omega arith;
    }
    | no p ↦ record {
      left = k - billion;
      admitted = true;
      answer = ground arith;
      holds = ground (arith, spent-pos k);
      paid = omega arith;
    }
  ]

  -- A request that comes alone: the tokens that are left and the token that is spent are covered by
  -- the tokens before and the refill for the time between.
  pub take_token-After :
      (b : AtomicTokenBucket) (t l d : ℕ)
      → Holds burst rate b t l
      → l + d < 9223372036854775808
      → After t l d (take_token x (pos (l + d)) [] b)
  unfolding take_token
  take_token-After b t l d h small = round-After b t l d h (
      rw (refilled_lem b t l d h small)
        (clamp-Amount x (burst * billion) (t + d * rate) _ (tokens_after-le t rate d)))

  -- Requests one after another: each comes the given time after the one before. The result is the
  -- number of those admitted.
  pub serve : ℕ → List ℕ → AtomicTokenBucket → ℕ
  serve l [] b = 0
  serve l (d ∷ ds) b =
      let r = take_token x (pos (l + d)) [] b in admissions r.1 + serve (l + d) ds r.0

  serve-le :
      (ds : List ℕ) (b : AtomicTokenBucket) (t l : ℕ)
      → Holds burst rate b t l
      → l + sum ds < 9223372036854775808
      → serve l ds b * billion ≤ t + sum ds * rate
  unfolding serve
  serve-le [] b t l h small = omega arith
  serve-le (d ∷ ds) b t l h small =
      let a = take_token-After b t l d h (omega arith) in
      let ih =
        serve-le ds (take_token x (pos (l + d)) [] b).0 a.left (l + d) a.holds (omega arith) in
      ground (arith, a.answer, a.paid, ih)

  -- A new bucket admits, over any number of requests that come one after another, no more than its
  -- burst and its rate times the time from its creation to the last of them. This holds also where
  -- the refill overflows an int64. The rule's numbers are non-negative and fit an int64 as
  -- nano-tokens, and so do the times.
  pub serve-new_bucket-le :
      (rule : LimitRule) (l : ℕ) (ds : List ℕ)
      → IsRule rule burst rate
      → l + sum ds < 9223372036854775808
      → serve l ds (new_bucket rule (pos l)) * billion ≤ burst * billion + sum ds * rate
  serve-new_bucket-le rule l ds ok small =
      serve-le ds (new_bucket rule (pos l)) (burst * billion) l
        (new_bucket-Holds rule burst rate l ok) small
