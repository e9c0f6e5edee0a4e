-- ===== src/Breaker/Manager.antt =====
-- breaker/manager.go: one circuit breaker for each path. The map holds pointers that are never
-- removed, so a write through a pointer is a write to the entry of its path. The order of a
-- `range` over the map is the order of the entries.
pub mod Laws
use Prim.Native.String.{len, slice}
use go_rpc_gateway.Prelude.{
  ℕ, zero, suc, Bool, true, false, ◌&&◌, Option, none, some, List, [], ◌∷◌, length, String, str_eq,
  leb, ◌==◌, if◌then◌else◌,
}
use go_rpc_gateway.Prelude.Int.{ℤ, pos, ltb_ℤ}
use go_rpc_gateway.Prelude.Dict.{lookup, insert}
use go_rpc_gateway.Breaker.{State, closed, opened, half_open, Breaker, new, reset, get_state}

pub record Manager : Type 0 where
  pub breakers : List (String × Breaker)
  pub failure_threshold : ℤ
  pub success_threshold : ℤ
  pub timeout : ℤ  -- nanoseconds
  pub volume_threshold : ℤ
  pub prevention_paths : List String
  pub exclude_paths : List String

unfoldable pub new_manager : ℤ → ℤ → ℤ → ℤ → List String → List String → Manager
new_manager failure_threshold success_threshold volume_threshold timeout prevention exclude =
    record {
      breakers = [];
      failure_threshold = failure_threshold;
      success_threshold = success_threshold;
      timeout = timeout;
      volume_threshold = volume_threshold;
      prevention_paths = prevention;
      exclude_paths = exclude;
    }

-- The zero duration, unless the timeout is positive.
abbrev duration : ℤ → ℤ
duration timeout = if ltb_ℤ (pos 0) timeout then timeout else pos 0

-- The breaker that the manager makes for a path it has not seen.
unfoldable pub new_breaker : ℕ → Manager → Breaker
new_breaker now m =
    new m.failure_threshold m.success_threshold m.volume_threshold (duration m.timeout) now

create : String → ℕ → Manager → Manager × Breaker
create path now m =
    let b = new_breaker now m in (record m { breakers = insert path b m.breakers }, b)

-- The part of `GetBreaker` under the write lock: it looks the path up again.
unfoldable pub get_locked : String → ℕ → Manager → Manager × Breaker
unfolding create
get_locked path now m = elim (lookup path m.breakers) [ some b ↦ (m, b) | none ↦ create path now m ]

unfoldable pub get_breaker : String → ℕ → Manager → Manager × Breaker
unfolding get_locked
get_breaker path now m = elim (lookup path m.breakers) [
  | some b ↦ (m, b)
  | none ↦ get_locked path now m
]

-- A call of a method on the pointer that `GetBreaker` returned for the path.
unfoldable pub update_breaker : String → (Breaker → Breaker) → Manager → Manager
update_breaker path f m = elim (lookup path m.breakers) [
  | some b ↦ record m { breakers = insert path (f b) m.breakers }
  | none ↦ m
]

unfoldable pub get_all_breakers : Manager → List (String × Breaker)
get_all_breakers m = m.breakers

unfoldable pub reset_breaker : String → ℕ → Manager → Manager × Bool
unfolding update_breaker
reset_breaker path now m = elim (lookup path m.breakers) [
  | some b ↦ (update_breaker path (reset now) m, true)
  | none ↦ (m, false)
]

unfoldable pub reset_each : ℕ → List (String × Breaker) → List (String × Breaker)
reset_each now [] = []
reset_each now ((path, b) ∷ bs) = (path, reset now b) ∷ reset_each now bs

unfoldable pub reset_all_breakers : ℕ → Manager → Manager
unfolding reset_each
reset_all_breakers now m = record m { breakers = reset_each now m.breakers }

is_excluded : String → List String → Bool
is_excluded path [] = false
is_excluded path (e ∷ es) = if str_eq path e then true else is_excluded path es

-- `len(path) >= len(p) && path[:len(p)] == p`
unfoldable pub has_prefix : String → String → Bool
has_prefix path p = leb (len p) (len path) && str_eq (slice path 0 (len p)) p

is_prevented : String → List String → Bool
is_prevented path [] = false
is_prevented path (p ∷ ps) = if has_prefix path p then true else is_prevented path ps

unfoldable pub is_path_protected : String → Manager → Bool
unfolding is_excluded is_prevented has_prefix
is_path_protected path m =
    if is_excluded path m.exclude_paths then false else is_prevented path m.prevention_paths

abbrev pub is_state : State → State → Bool
is_state closed closed = true
is_state opened opened = true
is_state half_open half_open = true
is_state _ _ = false

count_state : State → List (String × Breaker) → ℕ
count_state s [] = 0
count_state s ((path, b) ∷ bs) =
    let n = count_state s bs in if is_state (get_state b) s then suc n else n

unfoldable pub count_open_breakers : Manager → ℕ
unfolding count_state get_state
count_open_breakers m = count_state opened m.breakers

unfoldable pub count_half_open_breakers : Manager → ℕ
unfolding count_state get_state
count_half_open_breakers m = count_state half_open m.breakers

unfoldable pub count_closed_breakers : Manager → ℕ
unfolding count_state get_state
count_closed_breakers m = count_state closed m.breakers

pub record HealthStatus : Type 0 where
  pub is_healthy : Bool
  pub total_breakers : ℕ
  pub open_breakers : ℕ
  pub half_open_breakers : ℕ
  pub closed_breakers : ℕ

tally_in : State → HealthStatus → HealthStatus
tally_in opened h = record h { open_breakers = suc h.open_breakers }
tally_in half_open h = record h { half_open_breakers = suc h.half_open_breakers }
tally_in closed h = record h { closed_breakers = suc h.closed_breakers }

tally : List (String × Breaker) → HealthStatus → HealthStatus
unfolding tally_in
tally [] h = h
tally ((path, b) ∷ bs) h = tally bs (tally_in (get_state b) h)

unfoldable pub get_health_status : Manager → HealthStatus
unfolding tally get_state
get_health_status m =
    let h = tally m.breakers (record {
      is_healthy = true;
      total_breakers = length m.breakers;
      open_breakers = 0;
      half_open_breakers = 0;
      closed_breakers = 0;
    }) in
    record h { is_healthy = h.open_breakers == 0 }
