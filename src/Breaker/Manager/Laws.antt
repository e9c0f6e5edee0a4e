-- ===== src/Breaker/Manager/Laws.antt =====
-- The manager of breaker/manager.go: one breaker to a path, and counts that agree.
use text.Mathlib.TextPositions.{eq_refl}
use mathlib.Core.Option
use go_rpc_gateway.Prelude.{
  ℕ, ◌+◌, ◌≡◌, ◌↔◌, ◌&&◌, refl, true, not, any, Option-cases, inl, inr, some, List, [], ◌∷◌, length,
  String, str_eq, eq_iff, if◌then◌else◌, arith,
}
use go_rpc_gateway.Prelude.Dict.{lookup, lookup-insert}
use go_rpc_gateway.Breaker.{closed, opened, half_open, Breaker, reset, get_state}
use go_rpc_gateway.Breaker.Manager.{
  Manager, new_breaker, get_locked, get_breaker, update_breaker, reset_each, reset_all_breakers,
  is_excluded, is_prevented, has_prefix, is_path_protected, count_state, count_open_breakers,
  count_half_open_breakers, count_closed_breakers, HealthStatus, tally, tally_in, get_health_status,
}

-- After `GetBreaker` the path has the breaker that was returned, and every other path has what it
-- had before.
pub lookup-get_breaker :
    (path other : String) (now : ℕ) (m : Manager)
    → lookup other (get_breaker path now m).0.breakers
      ≡ (if str_eq path other then some (get_breaker path now m).1 else lookup other m.breakers)
unfolding get_breaker
lookup-get_breaker path other now m =
    ground (arith, eq_iff path other, lookup-insert path other (new_breaker now m) m.breakers)

-- Two goroutines that both missed the path under the read lock get one breaker: whichever enters
-- the write lock second finds the breaker of the first, and changes nothing.
pub get_locked_twice :
    (path : String) (now later : ℕ) (m : Manager)
    → get_locked path later (get_locked path now m).0 ≡ get_locked path now m
unfolding get_locked
get_locked_twice path now later m =
    ground (arith, eq_refl path, lookup-insert path path (new_breaker now m) m.breakers)

-- A write through the pointer of one path leaves the breakers of the others alone.
pub lookup-update_breaker :
    (path other : String) (f : Breaker → Breaker) (m : Manager)
    → lookup other (update_breaker path f m).breakers ≡ (
        if str_eq path other
        then Option.map f (lookup other m.breakers)
        else lookup other m.breakers)
unfolding update_breaker
lookup-update_breaker path other f m = elim (Option-cases (lookup path m.breakers)) [
  | inl missing ↦ ground (arith, eq_iff path other)
  | inr (b, found) ↦ ground (arith, eq_iff path other, lookup-insert path other (f b) m.breakers)
]

-- The counters of the health status, of a list, and its length.
record Agree (bs : List (String × Breaker)) (h h' : HealthStatus) : Type 0 where
  opens : h'.open_breakers ≡ h.open_breakers + count_state opened bs
  halves : h'.half_open_breakers ≡ h.half_open_breakers + count_state half_open bs
  closes : h'.closed_breakers ≡ h.closed_breakers + count_state closed bs
  total : h'.total_breakers ≡ h.total_breakers
  sum : count_state opened bs + count_state half_open bs + count_state closed bs ≡ length bs

tally-Agree : (bs : List (String × Breaker)) (h : HealthStatus) → Agree bs h (tally bs h)
unfolding tally count_state
tally-Agree [] h = ground arith
tally-Agree ((path, b) ∷ bs) h = ground (arith, tally-Agree bs (tally_in (get_state b) h))

-- A health status that is an account of the breakers: the counts of the three `Count…Breakers`
-- methods, a total that is their sum, and healthy for no open breaker.
pub record IsAccount (m : Manager) (h : HealthStatus) : Type 0 where
  pub opens : h.open_breakers ≡ count_open_breakers m
  pub halves : h.half_open_breakers ≡ count_half_open_breakers m
  pub closes : h.closed_breakers ≡ count_closed_breakers m
  pub total : h.total_breakers ≡ length m.breakers
  pub sum : h.open_breakers + h.half_open_breakers + h.closed_breakers ≡ h.total_breakers
  pub healthy : (h.is_healthy ≡ true) ↔ (count_open_breakers m ≡ 0)

abbrev counting : ℕ → HealthStatus
counting n = record {
  is_healthy = true;
  total_breakers = n;
  open_breakers = 0;
  half_open_breakers = 0;
  closed_breakers = 0;
}

-- The health status of a manager counts every breaker once: its counts are those of the three
-- counting methods, they add up to the number of breakers, and it reports healthy exactly when no
-- breaker is open.
pub get_health_status-IsAccount : (m : Manager) → IsAccount m (get_health_status m)
unfolding get_health_status count_open_breakers count_half_open_breakers count_closed_breakers
get_health_status-IsAccount m =
    ground (arith, tally-Agree m.breakers (counting (length m.breakers)))

reset_each-closed :
    (now : ℕ) (bs : List (String × Breaker))
    → (count_state opened (reset_each now bs) ≡ 0) × (count_state half_open (reset_each now bs) ≡ 0)
unfolding reset_each count_state reset get_state
reset_each-closed now [] = (refl, refl)
reset_each-closed now ((path, b) ∷ bs) = reset_each-closed now bs

-- After `ResetAllBreakers` every breaker is closed and the manager is healthy.
pub reset_all_breakers-healthy :
    (now : ℕ) (m : Manager)
    → (count_open_breakers (reset_all_breakers now m) ≡ 0)
      × (count_half_open_breakers (reset_all_breakers now m) ≡ 0)
      × ((get_health_status (reset_all_breakers now m)).is_healthy ≡ true)
unfolding reset_all_breakers count_open_breakers count_half_open_breakers
reset_all_breakers-healthy now m =
    let (no_open, no_half) = reset_each-closed now m.breakers in
    (no_open, no_half, (get_health_status-IsAccount (reset_all_breakers now m)).healthy.1 no_open)

any_excluded : (path : String) (es : List String) → is_excluded path es ≡ any (str_eq path) es
unfolding is_excluded
any_excluded path [] = refl
any_excluded path (e ∷ es) = ground (arith, any_excluded path es)

any_prevented : (path : String) (ps : List String) → is_prevented path ps ≡ any (has_prefix path) ps
unfolding is_prevented
any_prevented path [] = refl
any_prevented path (p ∷ ps) = ground (arith, any_prevented path ps)

-- A path is protected exactly when it has a listed prefix and is not itself on the exclude list:
-- the exclude list wins.
pub is_path_protected_iff :
    (path : String) (m : Manager)
    → is_path_protected path m
      ≡ (not (any (str_eq path) m.exclude_paths) && any (has_prefix path) m.prevention_paths)
unfolding is_path_protected
is_path_protected_iff path m =
    ground (arith, any_excluded path m.exclude_paths, any_prevented path m.prevention_paths)
