-- ===== src/RateLimit/TokenBucket/Wrapping.antt =====
-- The int64 arithmetic of the token bucket in middleware/ratelimit.go: what wrapping may do to each
-- step of a refill.
use native.Mathlib.Nat.{div-add-mod}
use native.Mathlib.Decide.{dec_lt}
use go_rpc_gateway.Prelude.{ℕ, min, ◌+◌, ◌-◌, ◌*◌, ◌/◌, ◌%◌, ◌≤◌, ◌<◌, ◌≡◌, arith, ap}
use go_rpc_gateway.Prelude.Int.{
  ℤ, pos, negsuc, pos_part, neg_part, ◌+ℤ◌, ◌-ℤ◌, ◌*ℤ◌, ◌≤ℤ◌, +ℤ_parts, -ℤ_parts, eq_of_parts,
}
use go_rpc_gateway.Prelude.Words.{int64, int64-pos, quot, rem}
use go_rpc_gateway.RateLimit.TokenBucket.{Mathx, billion, add_tokens}

-- Wrapping never raises a number that is not below the int64 range.
pub int64-le : (z : ℤ) → neg_part z ≤ 9223372036854775808 → int64 z ≤ℤ z
unfolding int64
int64-le (pos n) h = ground arith
int64-le (negsuc n) h = ground arith

pub int64-ge : (z : ℤ) → neg_part (int64 z) ≤ 9223372036854775808
unfolding int64
int64-ge (pos n) = ground arith
int64-ge (negsuc n) = ground arith

pub int64-lt : (z : ℤ) → pos_part (int64 z) < 9223372036854775808
unfolding int64
int64-lt (pos n) = ground arith
int64-lt (negsuc n) = ground arith

pub pos-* : (a b : ℕ) → pos a *ℤ pos b ≡ pos (a * b)
unfolding ◌*ℤ◌
pos-* a b = ground arith

quot-billion : (z : ℤ) (n : ℕ) → z ≤ℤ pos (n * billion) → quot z billion ≤ℤ pos n
unfolding quot
quot-billion (pos k) n h = omega arith
quot-billion (negsuc k) n h = ground arith

quot-billion-ge :
    (z : ℤ) → neg_part z ≤ 9223372036854775808 → neg_part (quot z billion) ≤ 9223372036
unfolding quot
quot-billion-ge (pos k) h = omega arith
quot-billion-ge (negsuc k) h = ground arith

+ℤ_neg : (a b : ℤ) → neg_part (a +ℤ b) ≤ neg_part a + neg_part b
unfolding ◌+ℤ◌
+ℤ_neg a b = ground arith

wrapped_sum-le :
    (n p : ℕ)
    → int64 (int64 (pos (n * billion)) +ℤ quot (int64 (pos (p * billion))) billion)
      ≤ℤ pos (n * billion + p)
wrapped_sum-le n p =
    let y = quot (int64 (pos (p * billion))) billion in
    let above : y ≤ℤ pos p =
      quot-billion (int64 (pos (p * billion))) p (int64-le _ (omega arith)) in
    let below : neg_part y ≤ 9223372036 = quot-billion-ge _ (int64-ge (pos (p * billion))) in
    elim (dec_lt (n * billion) 9223372036854775808) [
      | yes small ↦
          let z = pos (n * billion) +ℤ y in
          rw (int64-pos (n * billion) small) (
            omega (
              arith,
              +ℤ_parts (pos (n * billion)) y,
              int64-le z (omega (arith, +ℤ_neg (pos (n * billion)) y)),
            ))
      | no big ↦ omega (arith, int64-lt (int64 (pos (n * billion)) +ℤ y))
    ]

-- What is added is at most the rate times the time, whatever overflows on the way.
pub add_tokens-le : (r e : ℕ) → add_tokens (pos (r * billion)) (pos e) ≤ℤ pos (e * r)
unfolding add_tokens quot rem
add_tokens-le r e =
    let q = e / billion in
    let m = e % billion in
    let h = wrapped_sum-le (q * r) (m * r) in
    let eq₁ : q * (r * billion) ≡ q * r * billion = omega arith in
    let eq₂ : m * (r * billion) ≡ m * r * billion = omega arith in
    let eq₃ : q * r * billion + m * r ≡ e * r =
      omega (arith, ap (λ (t : ℕ). t * r) (div-add-mod e billion)) in
    rw (pos-* q (r * billion), pos-* m (r * billion), eq₁, eq₂, ← eq₃) h

add_tokens-ge : (rate e : ℤ) → neg_part (add_tokens rate e) ≤ 9223372036854775808
unfolding add_tokens
add_tokens-ge rate e = int64-ge _

pub tokens_after-le :
    (t r e : ℕ) → int64 (pos t +ℤ add_tokens (pos (r * billion)) (pos e)) ≤ℤ pos (t + e * r)
tokens_after-le t r e =
    let a = add_tokens (pos (r * billion)) (pos e) in
    omega (
      arith,
      +ℤ_parts (pos t) a,
      add_tokens-le r e,
      int64-le (pos t +ℤ a)
          (omega (arith, +ℤ_neg (pos t) a, add_tokens-ge (pos (r * billion)) (pos e))),
    )

pub elapsed-pos : (l d : ℕ) → l + d < 9223372036854775808 → int64 (pos (l + d) -ℤ pos l) ≡ pos d
elapsed-pos l d h =
    let e : pos (l + d) -ℤ pos l ≡ pos d =
      eq_of_parts _ _ (omega (arith, -ℤ_parts (pos (l + d)) (pos l))) in
    rw e (int64-pos d (omega arith))

pub spent-pos :
    (k : ℕ)
    → billion ≤ k
    → k < 9223372036854775808
    → int64 (pos k -ℤ pos billion) ≡ pos (k - billion)
spent-pos k low high =
    let e : pos k -ℤ pos billion ≡ pos (k - billion) =
      eq_of_parts _ _ (omega (arith, -ℤ_parts (pos k) (pos billion))) in
    rw e (int64-pos (k - billion) (omega arith))

-- The clamp of the refilled tokens to the range from 0 to the capacity.
abbrev pub clamp : Mathx → ℕ → ℤ → ℤ
clamp x most z = x.at_most (pos 0) (x.at_least (pos most) z)

pub clamp-pos : (x : Mathx) (most n : ℕ) → clamp x most (pos n) ≡ pos (min most n)
clamp-pos x most n = rw (clamp, x.at_least_min (pos most) (pos n), x.at_most_max) (ground arith)

pub clamp-negsuc : (x : Mathx) (most n : ℕ) → clamp x most (negsuc n) ≡ pos 0
clamp-negsuc x most n =
    rw (clamp, x.at_least_min (pos most) (negsuc n), x.at_most_max) (ground arith)
