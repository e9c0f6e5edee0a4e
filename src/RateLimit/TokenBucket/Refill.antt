-- ===== src/RateLimit/TokenBucket/Refill.antt =====
-- The refill of the token bucket of middleware/ratelimit.go: exact at rates up to 9 a second, and
-- what the overflow of `remainderNanos*refillRate` does at higher ones.
use native.Mathlib.Nat.{div-add-mod}
use native.Mathlib.Decide.{dec_lt}
use go_rpc_gateway.Prelude.{
  ℕ, ◌+◌, ◌-◌, ◌*◌, ◌/◌, ◌%◌, ◌≤◌, ◌<◌, ◌≡◌, false, some, [], arith, ap, ◌∙◌, leb, min,
}
use go_rpc_gateway.Prelude.Int.{ℤ, pos, negsuc, ◌+ℤ◌, +ℤ_parts, eq_of_parts}
use go_rpc_gateway.Prelude.Words.{int64, int64-pos, int64-negsuc, quot, rem}
use go_rpc_gateway.RateLimit.TokenBucket.{
  Mathx, billion, AtomicTokenBucket, add_tokens, refilled, round, take_token,
}
use go_rpc_gateway.RateLimit.TokenBucket.Bounds.{Holds, refilled_lem}
use go_rpc_gateway.RateLimit.TokenBucket.Wrapping.{pos-*, clamp, clamp-pos, clamp-negsuc}

+ℤ_pos : (a b : ℕ) → pos a +ℤ pos b ≡ pos (a + b)
unfolding ◌+ℤ◌
+ℤ_pos a b = ground arith

quot_exact : (p : ℕ) → quot (pos (p * billion)) billion ≡ pos p
unfolding quot
quot_exact p = ground arith

wrapped_sum_exact :
    (n p : ℕ)
    → n * billion + p < 9223372036854775808
    → p * billion < 9223372036854775808
    → int64 (int64 (pos (n * billion)) +ℤ quot (int64 (pos (p * billion))) billion)
      ≡ pos (n * billion + p)
wrapped_sum_exact n p sum_fits product_fits =
    rw
      (
        int64-pos (n * billion) (omega arith),
        int64-pos (p * billion) product_fits,
        quot_exact p,
        +ℤ_pos (n * billion) p,
      )
      (int64-pos (n * billion + p) sum_fits)

add_tokens_parts :
    (r e : ℕ)
    → add_tokens (pos (r * billion)) (pos e)
      ≡ int64 (
          int64 (pos (e / billion * r * billion))
          +ℤ quot (int64 (pos (e % billion * r * billion))) billion)
unfolding add_tokens quot rem
add_tokens_parts r e =
    let eq₁ : e / billion * (r * billion) ≡ e / billion * r * billion = omega arith in
    let eq₂ : e % billion * (r * billion) ≡ e % billion * r * billion = omega arith in
    rw (pos-* (e / billion) (r * billion), pos-* (e % billion) (r * billion), eq₁, eq₂)

elapsed_split : (r e : ℕ) → e / billion * r * billion + e % billion * r ≡ e * r
elapsed_split r e = omega (arith, ap (λ (t : ℕ). t * r) (div-add-mod e billion))

remainder_small : (r m : ℕ) → r ≤ 9 → m < billion → m * r * billion < 9223372036854775808
remainder_small r m h k = grind arith

-- At rates up to 9 a second the refill is the rate times the time, to the nano-token.
pub add_tokens_exact :
    (r e : ℕ)
    → r ≤ 9
    → e * r < 9223372036854775808
    → add_tokens (pos (r * billion)) (pos e) ≡ pos (e * r)
add_tokens_exact r e slow fits =
    add_tokens_parts r e
    ∙ wrapped_sum_exact (e / billion * r) (e % billion * r) (omega (arith, elapsed_split r e))
        (remainder_small r (e % billion) slow (omega arith))
    ∙ ap pos (elapsed_split r e)

div-eq_zero : (e : ℕ) → e < billion → e / billion ≡ 0
div-eq_zero e h = omega arith

-- The products in which the remainder of a second, times the rate, passes the int64 range once.
abbrev pub Overflows : ℕ → ℕ → Type 0
Overflows rate e = (e < billion) × (9223372037 ≤ e * rate) × (e * rate ≤ 18446744072)

int64-overflow :
    (p : ℕ)
    → 9223372037 ≤ p
    → p ≤ 18446744072
    → int64 (pos (p * billion)) ≡ negsuc (18446744073709551615 - p * billion)
unfolding int64
int64-overflow p low high = ground arith

quot-overflow :
    (p : ℕ)
    → p ≤ 18446744072
    → quot (negsuc (18446744073709551615 - p * billion)) billion ≡ negsuc (18446744072 - p)
unfolding quot
quot-overflow p high = ground arith

zero_+ℤ : (z : ℤ) → pos 0 +ℤ z ≡ z
unfolding ◌+ℤ◌
zero_+ℤ (pos n) = ground arith
zero_+ℤ (negsuc n) = ground arith

-- There the refill is negative: it takes tokens away instead of adding any.
pub add_tokens_overflow :
    (rate e : ℕ)
    → Overflows rate e
    → add_tokens (pos (rate * billion)) (pos e) ≡ negsuc (18446744072 - e * rate)
add_tokens_overflow rate e (short, low, high) =
    let no_seconds : e / billion * rate * billion ≡ 0 =
      omega (arith, ap (λ (q : ℕ). q * rate) (div-eq_zero e short)) in
    let all_rest : e % billion ≡ e = omega arith in
    add_tokens_parts rate e
    ∙ rw
        (
          no_seconds,
          all_rest,
          int64-pos 0 (omega arith),
          int64-overflow (e * rate) low high,
          quot-overflow (e * rate) high,
          zero_+ℤ,
        )
        (int64-negsuc (18446744072 - e * rate) (omega arith))

-- Tokens that do not make up for what is taken away are clamped to none.
clamp_shortfall :
    (x : Mathx) (most t k : ℕ)
    → t ≤ k + 1
    → k < 9223372036854775808
    → clamp x most (int64 (pos t +ℤ negsuc k)) ≡ pos 0
clamp_shortfall x most t k few small = elim (dec_lt k t) [
  | yes p ↦
      let e : pos t +ℤ negsuc k ≡ pos 0 =
        eq_of_parts _ _ (omega (arith, +ℤ_parts (pos t) (negsuc k))) in
      rw (e, int64-pos 0 (omega arith)) (clamp-pos x most 0 ∙ ground arith)
  | no p ↦
      let e : pos t +ℤ negsuc k ≡ negsuc (k - t) =
        eq_of_parts _ _ (omega (arith, +ℤ_parts (pos t) (negsuc k))) in
      rw (e, int64-negsuc (k - t) (omega arith)) (clamp-negsuc x most (k - t))
]

module _ (x : Mathx) (burst rate : ℕ) where
  -- With a rate of at most 9 a second, of a bucket that was last refilled at `l` and is asked at
  -- `l + d`, that holds tokens `t` of at most its burst, and where `l + d`, the burst in nano-tokens
  -- and `t + d * rate`, the tokens with the refill, are all in the int64 range: a request is admitted
  -- exactly when `t + d * rate`, capped by the burst, makes a whole token.
  pub take_token_exact :
      (b : AtomicTokenBucket) (t l d : ℕ)
      → Holds burst rate b t l
      → l + d < 9223372036854775808
      → rate ≤ 9
      → t + d * rate < 9223372036854775808
      → (take_token x (pos (l + d)) [] b).1
        ≡ some (leb billion (min (burst * billion) (t + d * rate)))
  unfolding take_token round
  take_token_exact b t l d h small slow fits =
      let e : refilled x (pos (l + d)) b ≡ pos (min (burst * billion) (t + d * rate)) =
        refilled_lem x burst rate b t l d h small
        ∙ rw
            (
              add_tokens_exact rate d slow (omega arith),
              +ℤ_pos t (d * rate),
              int64-pos (t + d * rate) fits,
            )
            (clamp-pos x (burst * billion) (t + d * rate)) in
      ground (arith, e)

  -- At a higher rate a request may be refused though the bucket holds tokens: where the product of
  -- the rate and the time since the last request, less than a second, overflows, and the bucket
  -- holds no more than what is then taken away, the request is refused.
  pub take_token_overflow :
      (b : AtomicTokenBucket) (t l d : ℕ)
      → Holds burst rate b t l
      → l + d < 9223372036854775808
      → Overflows rate d
      → t + d * rate ≤ 18446744073
      → (take_token x (pos (l + d)) [] b).1 ≡ some false
  unfolding take_token round
  take_token_overflow b t l d h small over few =
      let e : refilled x (pos (l + d)) b ≡ pos 0 =
        refilled_lem x burst rate b t l d h small
        ∙ rw (add_tokens_overflow rate d over) (
            clamp_shortfall x (burst * billion) t (18446744072 - d * rate) (omega arith)
              (omega arith)) in
      ground (arith, e)
