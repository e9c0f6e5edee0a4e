-- ===== src/RateLimit/TokenBucket.antt =====
-- middleware/ratelimit.go: the token bucket limiter. Token amounts and the refill rate are int64
-- numbers of 10⁻⁹ tokens; every arithmetic result is wrapped as the machine does.
pub mod Wrapping
pub mod Bounds
pub mod Refill
pub mod Loop
use Prim.Native.String
use go_rpc_gateway.Prelude.{
  ℕ, Bool, true, false, Option, none, some, List, [], ◌∷◌, ◌≡◌, ◌&&◌, String, starts_with,
  if◌then◌else◌,
}
use go_rpc_gateway.Prelude.Int.{ℤ, pos, ◌+ℤ◌, ◌-ℤ◌, ◌*ℤ◌, ltb_ℤ, leb_ℤ}
use go_rpc_gateway.Prelude.Words.{int64, quot, rem}
use go_rpc_gateway.Prelude.Decimal.{decimal}
use go_rpc_gateway.Prelude.Dict.{lookup, insert}
use go_rpc_gateway.RateLimit.Config.{LimitRule}

-- What the bucket uses of package mathx, with the behaviour that the comments of ratelimit.go
-- record of it: `AtLeast` is the minimum and `AtMost` is the maximum.
pub record Mathx : Type 0 where
  pub at_least : ℤ → ℤ → ℤ
  pub at_most : ℤ → ℤ → ℤ
  pub at_least_min : (a b : ℤ) → at_least a b ≡ (if leb_ℤ a b then a else b)
  pub at_most_max : (a b : ℤ) → at_most a b ≡ (if leb_ℤ a b then b else a)

abbrev pub billion : ℕ
billion = 1000000000

pub record AtomicTokenBucket : Type 0 where
  pub tokens : ℤ
  pub max_tokens : ℤ
  pub refill_rate : ℤ
  pub last_refill : ℤ

unfoldable pub new_bucket : LimitRule → ℤ → AtomicTokenBucket
new_bucket rule now = record {
  tokens = int64 (rule.burst_size *ℤ pos billion);
  max_tokens = rule.burst_size;
  refill_rate = int64 (rule.requests_per_second *ℤ pos billion);
  last_refill = now;
}

-- `elapsedSeconds*refillRate + (remainderNanos*refillRate)/billion`
unfoldable pub add_tokens : ℤ → ℤ → ℤ
add_tokens rate elapsed =
    int64
      (int64 (quot elapsed billion *ℤ rate) +ℤ quot (int64 (rem elapsed billion *ℤ rate)) billion)

or_retry :
    AtomicTokenBucket × Option Bool
    → AtomicTokenBucket × Option Bool
    → AtomicTokenBucket × Option Bool
or_retry (b, some r) retry = (b, some r)
or_retry (b, none) retry = retry

-- `fmt.Sprintf("%s:rps_%d:burst_%d", …)`
unfoldable pub bucket_key : String → LimitRule → String
unfolding decimal
bucket_key key rule = String.◌++◌ key (
    String.◌++◌ ":rps_" (
      String.◌++◌ (decimal rule.requests_per_second)
        (String.◌++◌ ":burst_" (decimal rule.burst_size))))

-- `sync.Map.LoadOrStore`
load_or_store {ℓ} : {V : Type ℓ} → String → V → List (String × V) → V
load_or_store key v m = elim (lookup key m) [ some w ↦ w | none ↦ v ]

-- `Reset` deletes every entry whose key begins with the given key.
unfoldable pub reset :
    String → List (String × AtomicTokenBucket) → List (String × AtomicTokenBucket)
reset key [] = []
reset key ((k, b) ∷ m) = let rest = reset key m in if starts_with k key then rest else (k, b) ∷ rest

-- A rule that the caller gives, or the global one.
abbrev effective : Option LimitRule → Option LimitRule → Option LimitRule
effective (some rule) global_rule = some rule
effective none global_rule = global_rule

module _ (x : Mathx) where
  -- The tokens after the refill, from what was read of the bucket.
  unfoldable pub refilled : ℤ → AtomicTokenBucket → ℤ
  refilled now b =
      let elapsed = x.at_most (pos 0) (int64 (now -ℤ b.last_refill)) in
      let tokens_after_refill = int64 (b.tokens +ℤ add_tokens b.refill_rate elapsed) in
      x.at_most (pos 0) (x.at_least (int64 (b.max_tokens *ℤ pos billion)) tokens_after_refill)

  -- One round of the loop. `seen` is the bucket as it was read, `cur` as it is at the store or at
  -- the compare-and-swap, which looks at the tokens only; `none` is a failed swap.
  unfoldable pub round : ℤ → AtomicTokenBucket → AtomicTokenBucket → AtomicTokenBucket × Option Bool
  round now seen cur =
      let t = refilled now seen in
      if ltb_ℤ t (pos billion)
      then (record cur { tokens = t; last_refill = now }, some false)
      else if leb_ℤ cur.tokens seen.tokens && leb_ℤ seen.tokens cur.tokens
      then (record cur { tokens = int64 (t -ℤ pos billion); last_refill = now }, some true)
      else (cur, none)

  -- The loop. Each function of the list is what other goroutines do to the bucket within a round,
  -- between the reads and the write; in the round after the last of them the bucket is left alone.
  -- `none` would be a loop that has not returned.
  unfoldable pub take_token :
      ℤ
      → List (AtomicTokenBucket → AtomicTokenBucket)
      → AtomicTokenBucket
      → AtomicTokenBucket × Option Bool
  unfolding or_retry
  take_token now [] b = round now b b
  take_token now (f ∷ fs) b = or_retry (round now b (f b)) (take_token now fs (f b))

  allow_rule :
      String
      → LimitRule
      → ℤ
      → ℤ
      → List (String × AtomicTokenBucket)
      → List (String × AtomicTokenBucket) × Option Bool
  unfolding load_or_store take_token
  allow_rule key rule created now m =
      let (b, r) = take_token now [] (load_or_store key (new_bucket rule created) m) in
      (insert key b m, r)

  -- `Allow`. The clock is read at `created` for a bucket that may be stored, and at `now` for the
  -- refill; no other goroutine works on the bucket.
  unfoldable pub allow :
      Option LimitRule
      → String
      → Option LimitRule
      → ℤ
      → ℤ
      → List (String × AtomicTokenBucket)
      → List (String × AtomicTokenBucket) × Option Bool
  unfolding allow_rule
  allow global_rule key rule created now m = elim (effective rule global_rule) [
    | none ↦ (m, some true)
    | some r ↦ allow_rule (bucket_key key r) r created now m
  ]
