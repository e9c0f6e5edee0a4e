-- ===== src/Prelude/Words.antt =====
-- Go's fixed-width signed integers: an integer is wrapped into two's complement at each write.
use go_rpc_gateway.Prelude.Tests.{ltb, if◌then◌else◌}
use Prim.Native.Nat.{ℕ, suc, ◌+◌, ◌-◌, ◌/◌, ◌%◌, ◌<◌}
use mathlib.Core.Path.{◌≡◌}
use native.Mathlib.Omega.{arith}
use go_rpc_gateway.Prelude.Int.{ℤ, pos, negsuc, ◌+ℤ◌, sub_ℕ}

-- The residue of an integer, as a number below the modulus.
abbrev pub residue : ℕ → ℤ → ℕ
residue m (pos n) = n % m
residue m (negsuc n) = m - 1 - n % m

-- The value of a bit pattern: the upper half of the range stands for the negative integers.
abbrev pub signed : ℕ → ℕ → ℤ
signed m r = if ltb r (m / 2) then pos r else negsuc (m - 1 - r)

unfoldable pub int32 : ℤ → ℤ
int32 z = signed 4294967296 (residue 4294967296 z)

unfoldable pub int64 : ℤ → ℤ
int64 z = signed 18446744073709551616 (residue 18446744073709551616 z)

pub int32-pos : (n : ℕ) → n < 2147483648 → int32 (pos n) ≡ pos n
unfolding int32
int32-pos n h = ground arith

pub int64-pos : (n : ℕ) → n < 9223372036854775808 → int64 (pos n) ≡ pos n
unfolding int64
int64-pos n h = ground arith

pub int64-negsuc : (n : ℕ) → n < 9223372036854775808 → int64 (negsuc n) ≡ negsuc n
unfolding int64
int64-negsuc n h = ground arith

-- `atomic.AddInt32(&c, 1)` and `atomic.AddInt64(&c, 1)`.
unfoldable pub add_int32 : ℤ → ℤ
unfolding int32 ◌+ℤ◌
add_int32 c = int32 (c +ℤ pos 1)

unfoldable pub add_int64 : ℤ → ℤ
unfolding int64 ◌+ℤ◌
add_int64 c = int64 (c +ℤ pos 1)

pub add_int32-pos : (n : ℕ) → n + 1 < 2147483648 → add_int32 (pos n) ≡ pos (n + 1)
unfolding add_int32 int32 ◌+ℤ◌
add_int32-pos n h = ground arith

pub add_int64-pos : (n : ℕ) → n + 1 < 9223372036854775808 → add_int64 (pos n) ≡ pos (n + 1)
unfolding add_int64 int64 ◌+ℤ◌
add_int64-pos n h = ground arith

-- Go's `/` and `%` on signed integers, at a positive divisor: truncated towards 0.
unfoldable pub quot : ℤ → ℕ → ℤ
quot (pos n) d = pos (n / d)
quot (negsuc n) d = sub_ℕ 0 (suc n / d)

unfoldable pub rem : ℤ → ℕ → ℤ
rem (pos n) d = pos (n % d)
rem (negsuc n) d = sub_ℕ 0 (suc n % d)
