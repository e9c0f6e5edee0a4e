-- ===== src/RateLimit/SlidingWindow/Laws.antt =====
-- middleware/ratelimit.go: the sliding window limiter at windows below a second, and its bound.
use go_rpc_gateway.Prelude.{
  zero, suc, ◌≡◌, ◌≤◌, refl, sym, ap, subst, Bool, true, false, Option, none, some, List, [], ◌∷◌,
  map, arith, Bool-cases, if_either, inl, inr,
}
use go_rpc_gateway.Prelude.Int.{ℤ, pos, negsuc, leb_ℤ, ◌*ℤ◌, ◌-ℤ◌, ◌+ℤ◌}
use go_rpc_gateway.Prelude.Words.{int64}
use go_rpc_gateway.RateLimit.Config.{LimitRule}
use go_rpc_gateway.RateLimit.SlidingWindow.{
  Member, Keys, no_keys, Numbers, purge, remove_until, count_from, add_member, expire, decide,
  script, verdict, settled, attempts, first_three, allow, answers,
}

module _ (numbers : Numbers) where
  -- Of no keys, a script with a window of no seconds and a positive limit allows, and leaves none.
  script-no_keys :
      (clock now start limit window : ℤ)
      → numbers.tonumber window ≡ pos 0
      → leb_ℤ (numbers.tonumber limit) (pos 0) ≡ false
      → script numbers clock now start limit window no_keys ≡ (no_keys, pos 1)
  unfolding script decide expire count_from remove_until purge ◌*ℤ◌
  script-no_keys clock now start limit window none_left positive =
      rw (none_left, positive, decide) refl

  attempts-no_keys :
      (now clock : ℤ) (rule : LimitRule) (rest : List (Option ℤ))
      → numbers.tonumber (numbers.seconds rule.window_size) ≡ pos 0
      → leb_ℤ (numbers.tonumber rule.requests_per_second) (pos 0) ≡ false
      → attempts numbers now rule (some clock ∷ rest) no_keys ≡ (no_keys, some true)
  unfolding attempts settled verdict
  attempts-no_keys now clock rule rest none_left positive =
      ap (λ (run : Keys × ℤ). settled run.0 (verdict run.1) (attempts numbers now rule rest run.0))
        (script-no_keys clock now (int64 (now -ℤ rule.window_size)) rule.requests_per_second
          (numbers.seconds rule.window_size) none_left positive)

  -- The first try of every request reaches Redis.
  abbrev pub Reached : List (ℤ × List (Option ℤ)) → Type 0
  Reached [] = Unit
  Reached ((now, []) ∷ later) = ⊥
  Reached ((now, none ∷ rest) ∷ later) = ⊥
  Reached ((now, some clock ∷ rest) ∷ later) = Reached later

  allow-no_keys :
      (now clock : ℤ) (rule : LimitRule) (rest : List (Option ℤ))
      → numbers.tonumber (numbers.seconds rule.window_size) ≡ pos 0
      → leb_ℤ (numbers.tonumber rule.requests_per_second) (pos 0) ≡ false
      → allow numbers now rule (some clock ∷ rest) no_keys ≡ (no_keys, some true)
  unfolding allow
  allow-no_keys now clock rule [] = attempts-no_keys now clock rule []
  allow-no_keys now clock rule (b ∷ []) = attempts-no_keys now clock rule (b ∷ [])
  allow-no_keys now clock rule (b ∷ c ∷ rest) = attempts-no_keys now clock rule (b ∷ c ∷ [])

  -- With a window that is no whole second and a positive limit, no request is ever refused, however
  -- many there are and however fast they come, when the keys are missing at first and Redis answers.
  pub answers_subsecond :
      (rule : LimitRule) (requests : List (ℤ × List (Option ℤ)))
      → numbers.tonumber (numbers.seconds rule.window_size) ≡ pos 0
      → leb_ℤ (numbers.tonumber rule.requests_per_second) (pos 0) ≡ false
      → Reached requests
      → answers numbers rule requests no_keys
        ≡ (no_keys, map (λ (request : ℤ × List (Option ℤ)). some true) requests)
  unfolding answers
  answers_subsecond rule [] none_left positive reached = refl
  answers_subsecond rule ((now, []) ∷ later) none_left positive reached = absurd reached
  answers_subsecond rule ((now, none ∷ rest) ∷ later) none_left positive reached = absurd reached
  answers_subsecond rule ((now, some clock ∷ rest) ∷ later) none_left positive reached =
      rw
        (
          allow-no_keys now clock rule rest none_left positive,
          answers_subsecond rule later none_left positive reached,
        )
        refl

  count_from-remove_until :
      (start : ℤ) (members : List Member)
      → count_from start (remove_until start members) ≤ count_from start members
  unfolding count_from remove_until
  count_from-remove_until start [] = omega arith
  count_from-remove_until start (m ∷ rest) = ground (arith, count_from-remove_until start rest)

  -- A member more counts for one at most.
  count_from-add_member :
      (start : ℤ) (m : Member) (members : List Member)
      → count_from start (add_member m members) ≤ suc (count_from start members)
  unfolding count_from add_member
  count_from-add_member start m [] = ground arith
  count_from-add_member start m (n ∷ rest) = ground (arith, count_from-add_member start m rest)

  expire-count :
      (start clock ttl : ℤ) (keys : Keys)
      → count_from start (expire clock ttl keys).set ≤ count_from start keys.set
  unfolding expire count_from
  expire-count start clock ttl keys = ground arith

  decide_full :
      (clock now start limit window : ℤ) (keys : Keys)
      → leb_ℤ limit (pos (count_from start keys.set)) ≡ true
      → decide numbers clock now start limit window keys ≡ (record keys { locked = false }, pos 0)
  unfolding decide
  decide_full clock now start limit window keys full = rw (full, decide) refl

  -- The keys with the request in them.
  abbrev with_request : ℤ → Keys → Keys
  with_request now keys = record keys {
    set = add_member (record { score = now; unique_id = keys.counter +ℤ pos 1 }) keys.set;
    counter = keys.counter +ℤ pos 1;
    locked = false;
  }

  decide_room :
      (clock now start limit window : ℤ) (keys : Keys)
      → leb_ℤ limit (pos (count_from start keys.set)) ≡ false
      → decide numbers clock now start limit window keys
        ≡ (expire clock (window *ℤ pos 2) (with_request now keys), pos 1)
  unfolding decide
  decide_room clock now start limit window keys room = rw (room, decide) refl

  -- What a count below the limit leaves room for.
  decide-count :
      (clock now start limit window : ℤ) (keys : Keys)
      → (decide numbers clock now start limit window keys).1 ≡ pos 1
      → leb_ℤ
          (pos (count_from start (decide numbers clock now start limit window keys).0.set))
          limit
        ≡ true
  decide-count clock now start limit window keys h =
      elim (Bool-cases (leb_ℤ limit (pos (count_from start keys.set)))) [
        | inl full ↦ absurd (ground (arith, h, decide_full clock now start limit window keys full))
        | inr room ↦
            subst (λ (run : Keys × ℤ). leb_ℤ (pos (count_from start run.0.set)) limit ≡ true)
              (sym (decide_room clock now start limit window keys room))
              (ground (
                arith,
                room,
                expire-count start clock (window *ℤ pos 2) (with_request now keys),
                count_from-add_member start
                    (record { score = now; unique_id = keys.counter +ℤ pos 1 }) keys.set,
              ))
      ]

  script-count :
      (clock now start limit window : ℤ) (keys : Keys)
      → (let run = script numbers clock now start limit window keys in
          let from = numbers.tostring (numbers.tonumber start) in
          run.1 ≡ pos 1 → leb_ℤ (pos (count_from from run.0.set)) (numbers.tonumber limit) ≡ true)
  unfolding script
  script-count clock now start limit window before =
      let keys = purge clock before in
      let from = numbers.tostring (numbers.tonumber start) in
      if_either
        (λ (run : Keys × ℤ).
          run.1 ≡ pos 1 → leb_ℤ (pos (count_from from run.0.set)) (numbers.tonumber limit) ≡ true)
        keys.locked (λ h. absurd (ground (arith, h)))
        (decide-count clock (numbers.tonumber now) from (numbers.tonumber limit)
          (numbers.tonumber window)
          (record keys { set = remove_until from keys.set; locked = true }))

  verdict-true : (result : ℤ) → verdict result ≡ some true → result ≡ pos 1
  unfolding verdict
  verdict-true (pos zero) h = absurd (ground (arith, h))
  verdict-true (pos (suc zero)) h = refl
  verdict-true (pos (suc (suc n))) h = absurd (ground (arith, h))
  verdict-true (negsuc zero) h = absurd (ground (arith, h))
  verdict-true (negsuc (suc n)) h = absurd (ground (arith, h))

  -- At most as many members as the limit are in the window that a request at that time sees.
  abbrev pub Within : ℤ → LimitRule → Keys → Type 0
  Within now rule keys =
      leb_ℤ
        (pos (
          count_from (numbers.tostring (numbers.tonumber (int64 (now -ℤ rule.window_size))))
            keys.set))
        (numbers.tonumber rule.requests_per_second)
      ≡ true

  settled-Within :
      (now : ℤ) (rule : LimitRule) (keys : Keys) (v : Option Bool) (later : Keys × Option Bool)
      → (v ≡ some true → Within now rule keys)
      → (later.1 ≡ some true → Within now rule later.0)
      → (settled keys v later).1 ≡ some true
      → Within now rule (settled keys v later).0
  unfolding settled
  settled-Within now rule keys none later own others = others
  settled-Within now rule keys (some b) later own others = own

  attempts-Within :
      (now : ℤ) (rule : LimitRule) (clocks : List (Option ℤ)) (keys : Keys)
      → (attempts numbers now rule clocks keys).1 ≡ some true
      → Within now rule (attempts numbers now rule clocks keys).0
  unfolding attempts
  attempts-Within now rule [] keys h = absurd (ground (arith, h))
  attempts-Within now rule (none ∷ rest) keys h = absurd (ground (arith, h))
  attempts-Within now rule (some clock ∷ rest) keys h =
      let start = int64 (now -ℤ rule.window_size) in
      let window = numbers.seconds rule.window_size in
      let run = script numbers clock now start rule.requests_per_second window keys in
      settled-Within now rule run.0 (verdict run.1) (attempts numbers now rule rest run.0)
        (λ e.
          script-count clock now start rule.requests_per_second window keys (verdict-true run.1 e))
        (attempts-Within now rule rest run.0) h

  -- Whatever the keys hold, whatever the tries meet and however the numbers are rounded: when a
  -- request is let in, no more members than the limit are left in the window that ends with it.
  pub allow-Within :
      (now : ℤ) (rule : LimitRule) (clocks : List (Option ℤ)) (keys : Keys)
      → (allow numbers now rule clocks keys).1 ≡ some true
      → Within now rule (allow numbers now rule clocks keys).0
  unfolding allow
  allow-Within now rule clocks keys = attempts-Within now rule (first_three clocks) keys
