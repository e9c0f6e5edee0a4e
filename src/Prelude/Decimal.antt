-- ===== src/Prelude/Decimal.antt =====
-- The `%d` of package fmt: a signed integer in decimal.
use Prim.Native.String
use go_rpc_gateway.Prelude.Tests.{ltb, if◌then◌else◌}
use go_rpc_gateway.Prelude.Int.{ℤ, pos, negsuc}
use Prim.Native.Nat.{ℕ, zero, suc, ◌/◌, ◌%◌}
use Prim.Native.String.{String, slice}

abbrev digit : ℕ → String
digit d = slice "0123456789" d (suc d)

-- The digits of `n` before `acc`. One round for each digit: fuel `n + 1` is enough.
decimal_from : ℕ → ℕ → String → String
decimal_from zero n acc = acc
decimal_from (suc f) n acc =
    let rest = decimal_from f (n / 10) (String.◌++◌ (digit (n % 10)) acc) in
    if ltb n 10 then String.◌++◌ (digit n) acc else rest

unfoldable pub decimal : ℤ → String
unfolding decimal_from
decimal (pos n) = decimal_from (suc n) n ""
decimal (negsuc n) = String.◌++◌ "-" (decimal_from (suc (suc n)) (suc n) "")
