-- ===== src/Replay/Laws.antt =====
-- Which requests the checks of middleware/timestamp.go and middleware/nonce.go let through.
use go_rpc_gateway.Prelude.{
  ℕ, ◌+◌, ◌-◌, ◌/◌, ◌≤◌, ◌<◌, ◌≡◌, ◌≢◌, ◌↔◌, ◌⊎◌, true, false, List, [], ◌∷◌, String, str_eq,
  eq_iff, subst, Bool-cases, Option-cases, inl, inr, All, ◌==◌, if◌then◌else◌, arith, some,
}
use go_rpc_gateway.Prelude.Int.{ℤ, pos, negsuc, ltb_ℤ, ◌-ℤ◌, pos_part, neg_part}
use go_rpc_gateway.Prelude.Words.{int64, quot}
use Prim.Native.String
use go_rpc_gateway.Replay.Nonce.{
  Redis, next_called, Outcome, check_and_incr_nonce, nonce_middleware,
}
use go_rpc_gateway.Replay.Timestamp
use go_rpc_gateway.Replay.Timestamp.{
  Signature, Library, difference, is_expired, timestamp_middleware,
}

-- The distance of two times, as integers.
abbrev pub distance : ℕ → ℤ → ℕ
distance now (pos t) = (now - t) + (t - now)
distance now (negsuc t) = now + t + 1

-- With the present before 2 ^ 62, a non-negative window of `w` nanoseconds and a timestamp of 64 bits, the check
-- accepts a timestamp exactly when it is at most the window's whole seconds away, or when it lies
-- exactly 2 ^ 63 seconds in the past, where the difference has no absolute value in an int64.
pub is_expired_iff :
    (w now : ℕ) (timestamp : ℤ)
    → now < 4611686018427387904
    → w < 9223372036854775808
    → pos_part timestamp < 9223372036854775808
    → neg_part timestamp ≤ 9223372036854775808
    → (is_expired (pos w) (pos now) timestamp ≡ false)
      ↔ ((distance now timestamp ≤ w / 1000000000) ⊎ (distance now timestamp ≡ 9223372036854775808))
unfolding is_expired quot int64 ◌-ℤ◌
is_expired_iff w now (pos t) a b c d = ground arith
is_expired_iff w now (negsuc t) a b c d = ground arith

-- A request whose timestamp is a number gets through the check, where it is on, required and not
-- ignored, exactly when the timestamp is at most the window's whole seconds away from the present,
-- or exactly 2 ^ 63 seconds in the past. The present is before 2 ^ 62.
pub timestamp_middleware-next_iff :
    (x : Library) (c : Signature) (w now : ℕ) (path timestamp : String) (t : ℤ)
    → c.enabled ≡ true
    → c.require_timestamp ≡ true
    → x.match_path_in_list path c.ignore_paths ≡ false
    → timestamp ≢ ""
    → x.parse_int timestamp ≡ some t
    → c.timeout_window ≡ pos w
    → now < 4611686018427387904
    → w < 9223372036854775808
    → pos_part t < 9223372036854775808
    → neg_part t ≤ 9223372036854775808
    → (timestamp_middleware x c (pos now) path timestamp ≡ Timestamp.next_called)
      ↔ ((distance now t ≤ w / 1000000000) ⊎ (distance now t ≡ 9223372036854775808))
unfolding timestamp_middleware
timestamp_middleware-next_iff x c w now path timestamp t on required path_checked present parsed
      window small_now small_w high low =
    let is_window = is_expired_iff w now t small_now small_w high low in
    let here : timestamp_middleware x c (pos now) path timestamp
        ≡ (if is_expired (pos w) (pos now) t then Timestamp.expired else Timestamp.next_called) =
      ground (arith, eq_iff timestamp "") in
    elim (Bool-cases (is_expired (pos w) (pos now) t)) [
      | inl late ↦ ground (arith, here, is_window)
      | inr good ↦ ground (arith, here, is_window)
    ]

abbrev pub outcome_count : Outcome → ℕ
outcome_count next_called = 1
outcome_count _ = 0

module _ (redis : Redis) (x : Library) (c : Signature) where
  open redis use {Store, count, incr, expire, incr_answer, incr_grows, expire_count, expire_deletes}

  -- Requests one after another, each a path and a nonce, with Redis at hand: how many of those that
  -- carry the nonce `v` get through.
  unfoldable pub served : String → List (String × String) → Store → ℕ
  served v [] s = 0
  served v ((path, nonce) ∷ rs) s =
      let r = nonce_middleware redis x c true path nonce s in
      (if str_eq nonce v then outcome_count r.1 else 0) + served v rs r.0

  -- A nonce that was never counted may get through once, any other not at all.
  abbrev pub room : ℕ → ℕ
  room n = if n == 0 then 1 else 0

  abbrev pub key : String → String
  key v = String.◌++◌ c.nonce_key_prefix v

  step_self :
      (path v : String) (s : Store)
      → c.enabled ≡ true
      → c.require_nonce ≡ true
      → x.match_path_in_list path c.ignore_paths ≡ false
      → ltb_ℤ (pos 0) c.nonce_ttl ≡ true
      → v ≢ ""
      → outcome_count (nonce_middleware redis x c true path v s).1
          + room (count (nonce_middleware redis x c true path v s).0 (key v))
        ≤ room (count s (key v))
  unfolding nonce_middleware check_and_incr_nonce
  step_self path v s on required checked lasting present = elim (Option-cases (incr (key v) s).1) [
    | inl failed ↦ ground (arith, eq_iff v "", incr_grows (key v) (key v) s)
    | inr (n, answered) ↦ ground (
      arith,
      eq_iff v "",
      incr_answer (key v) s n answered,
      expire_count (key v) (key v) c.nonce_ttl (incr (key v) s).0 lasting,
    )
  ]

  step_other :
      (path v nonce : String) (s : Store)
      → ltb_ℤ (pos 0) c.nonce_ttl ≡ true
      → room (count (nonce_middleware redis x c true path nonce s).0 (key v))
        ≤ room (count s (key v))
  unfolding nonce_middleware check_and_incr_nonce
  step_other path v nonce s lasting = elim (Option-cases (incr (key nonce) s).1) [
    | inl failed ↦ ground (arith, incr_grows (key nonce) (key v) s)
    | inr (n, answered) ↦ ground (
      arith,
      incr_grows (key nonce) (key v) s,
      expire_count (key nonce) (key v) c.nonce_ttl (incr (key nonce) s).0 lasting,
    )
  ]

  -- Over any requests one after another, with the check on, required, no path ignored and a time to
  -- live that is positive, a nonce that is not empty and was never counted gets through at most once,
  -- and one that was counted before does not get through at all, though commands of Redis may fail.
  -- The counters do not expire in between.
  pub served-le :
      (v : String) (rs : List (String × String)) (s : Store)
      → c.enabled ≡ true
      → c.require_nonce ≡ true
      → All (λ r. x.match_path_in_list r.0 c.ignore_paths ≡ false) rs
      → ltb_ℤ (pos 0) c.nonce_ttl ≡ true
      → v ≢ ""
      → served v rs s ≤ room (count s (key v))
  unfolding served
  served-le v [] s on required checked lasting present = ground arith
  served-le v ((path, nonce) ∷ rs) s on required (here, later) lasting present =
      let r = nonce_middleware redis x c true path nonce s in
      let ih = served-le v rs r.0 on required later lasting present in
      elim (Bool-cases (str_eq nonce v)) [
        | inl same ↦
            let e : nonce ≡ v = (eq_iff nonce v).0 same in
            let one : outcome_count r.1 + room (count r.0 (key v)) ≤ room (count s (key v)) =
              subst (λ k. outcome_count r.1 + room (count r.0 (key k)) ≤ room (count s (key k))) e
                (step_self path nonce s on required here lasting (rw e present)) in
            ground (arith, same, one, ih)
        | inr other ↦ ground (arith, other, ih, step_other path v nonce s lasting)
      ]

  -- With a time to live that is not positive, the first use of a nonce, if Redis answers both
  -- commands, gets through and leaves it as one that was never used.
  pub nonce_middleware_unlasting :
      (path v : String) (s : Store)
      → c.enabled ≡ true
      → c.require_nonce ≡ true
      → x.match_path_in_list path c.ignore_paths ≡ false
      → ltb_ℤ (pos 0) c.nonce_ttl ≡ false
      → v ≢ ""
      → count s (key v) ≡ 0
      → (incr (key v) s).1 ≡ some 1
      → (expire (key v) c.nonce_ttl (incr (key v) s).0).1 ≡ true
      → ((nonce_middleware redis x c true path v s).1 ≡ next_called)
        × (count (nonce_middleware redis x c true path v s).0 (key v) ≡ 0)
  unfolding nonce_middleware check_and_incr_nonce
  nonce_middleware_unlasting path v s on required checked unlasting present fresh counted expired =
      ground (
        arith,
        eq_iff v "",
        expire_deletes (key v) c.nonce_ttl (incr (key v) s).0 unlasting expired,
      )
