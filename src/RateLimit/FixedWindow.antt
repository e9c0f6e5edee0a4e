-- ===== src/RateLimit/FixedWindow.antt =====
-- middleware/ratelimit.go: the fixed window limiter. Times are int64 nanoseconds; each call runs
-- with no other goroutine between its atomic operations.
pub mod Laws
use Prim.Native.String
use go_rpc_gateway.Prelude.{
  Bool, true, Option, none, some, List, [], ◌∷◌, String, starts_with, if◌then◌else◌,
}
use go_rpc_gateway.Prelude.Int.{ℤ, pos, ◌+ℤ◌, ltb_ℤ, leb_ℤ}
use go_rpc_gateway.Prelude.Words.{int64, add_int64}
use go_rpc_gateway.Prelude.Decimal.{decimal}
use go_rpc_gateway.Prelude.Dict.{lookup, insert}
use go_rpc_gateway.RateLimit.Config.{LimitRule}

pub record AtomicCounter : Type 0 where
  pub count : ℤ
  pub reset_time : ℤ

unfoldable pub new_counter : ℤ → LimitRule → AtomicCounter
new_counter now rule = record { count = pos 0; reset_time = int64 (now +ℤ rule.window_size) }

-- The counter after a request, and whether the request is allowed.
unfoldable pub count_request : ℤ → LimitRule → AtomicCounter → AtomicCounter × Bool
count_request now rule c =
    if ltb_ℤ c.reset_time now
    then (record { count = pos 1; reset_time = int64 (now +ℤ rule.window_size) }, true)
    else (let n = add_int64 c.count in (record c { count = n }, leb_ℤ n rule.requests_per_second))

-- `sync.Map.LoadOrStore`
abbrev load_or_store : String → AtomicCounter → List (String × AtomicCounter) → AtomicCounter
load_or_store key c m = elim (lookup key m) [ some d ↦ d | none ↦ c ]

unfoldable pub allow_at :
    String → ℤ → LimitRule → List (String × AtomicCounter) → List (String × AtomicCounter) × Bool
allow_at counter_key now rule m =
    let (c, allowed) =
      count_request now rule (load_or_store counter_key (new_counter now rule) m) in
    (insert counter_key c m, allowed)

-- `%v` of a time.Duration is package time's.
module _ (duration_string : ℤ → String) where
  -- `fmt.Sprintf("%s:win_%v:rps_%d", …)`
  unfoldable pub counter_key : String → LimitRule → String
  unfolding decimal
  counter_key key rule = String.◌++◌ key (
      String.◌++◌ ":win_" (
        String.◌++◌ (duration_string rule.window_size)
          (String.◌++◌ ":rps_" (decimal rule.requests_per_second))))

  unfoldable pub allow :
      String → ℤ → LimitRule → List (String × AtomicCounter) → List (String × AtomicCounter) × Bool
  unfolding allow_at
  allow key now rule m = allow_at (counter_key key rule) now rule m

-- `Reset` deletes every counter whose key begins with the given key.
unfoldable pub reset : String → List (String × AtomicCounter) → List (String × AtomicCounter)
reset key [] = []
reset key ((k, c) ∷ m) = let rest = reset key m in if starts_with k key then rest else (k, c) ∷ rest

-- Whether a tick of `cleanup` at `now` deletes the counter.
abbrev pub is_stale : ℤ → ℤ → AtomicCounter → Bool
is_stale clean_interval now c = ltb_ℤ (int64 (c.reset_time +ℤ clean_interval)) now

-- One tick of `cleanup`.
unfoldable pub cleanup_tick : ℤ → ℤ → List (String × AtomicCounter) → List (String × AtomicCounter)
cleanup_tick clean_interval now [] = []
cleanup_tick clean_interval now ((k, c) ∷ m) =
    let rest = cleanup_tick clean_interval now m in
    if is_stale clean_interval now c then rest else (k, c) ∷ rest
