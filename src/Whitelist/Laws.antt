-- ===== src/Whitelist/Laws.antt =====
-- The order of the rules of middleware/whitelist.go, and what a registration changes.
use go_rpc_gateway.Prelude.{
  ◌≡◌, refl, ap, Bool, true, ◌||◌, any, List, [], ◌∷◌, ◌++◌, String, Bool-cases, inl, inr, All,
  arith,
}
use go_rpc_gateway.Prelude.Int.{ℤ, ◌≤ℤ◌, ltb_ℤ}
use go_rpc_gateway.Whitelist.{
  Matchers, WhitelistRule, IpWhitelistRule, WhitelistManager, priority, ip_priority, matches,
  match_with_ip, insert_by, register, register_ip, some_rule, some_ip_rule, is_whitelisted,
  is_whitelisted_with_ip,
}

module _ {A : Type 0} (rank : A → ℤ) where
  -- A list in order of priority: each rule's number is at most that of every later rule.
  abbrev pub IsRanked : List A → Type 0
  IsRanked [] = Unit
  IsRanked (b ∷ bs) = All (λ c. rank b ≤ℤ rank c) bs × IsRanked bs

  -- Where a rule stands after its insertion: behind every rule of the same or a smaller number, and
  -- before every rule of a greater one, with the others in the order that they had.
  pub record IsPlaced (a : A) (bs placed : List A) : Type 0 where
    pub before : List A
    pub after : List A
    pub old : bs ≡ before ++ after
    pub new : placed ≡ before ++ a ∷ after
    pub before_le : All (λ b. rank b ≤ℤ rank a) before
    pub after_gt : All (λ b. ltb_ℤ (rank a) (rank b) ≡ true) after

  All-gt :
      (a b : A) (bs : List A)
      → ltb_ℤ (rank a) (rank b) ≡ true
      → All (λ c. rank b ≤ℤ rank c) bs
      → All (λ c. ltb_ℤ (rank a) (rank c) ≡ true) bs
  All-gt a b [] lt h = tt
  All-gt a b (c ∷ bs) lt (le, h) = (ground arith, All-gt a b bs lt h)

  insert_by-IsPlaced : (a : A) (bs : List A) → IsRanked bs → IsPlaced a bs (insert_by rank a bs)
  unfolding insert_by
  insert_by-IsPlaced a [] h = record {
    before = [];
    after = [];
    old = refl;
    new = refl;
    before_le = tt;
    after_gt = tt;
  }
  insert_by-IsPlaced a (b ∷ bs) (le, h) = elim (Bool-cases (ltb_ℤ (rank a) (rank b))) [
    | inl lt ↦ record {
      before = [];
      after = b ∷ bs;
      old = refl;
      new = rw lt;
      before_le = tt;
      after_gt = (lt, All-gt a b bs lt le);
    }
    | inr ge ↦
        let p = insert_by-IsPlaced a bs h in
        record {
          before = b ∷ p.before;
          after = p.after;
          old = ap (λ l. b ∷ l) p.old;
          new = rw (ge, ← p.new);
          before_le = (ground arith, p.before_le);
          after_gt = p.after_gt;
        }
  ]

  All-insert_by :
      (P : A → Type 0) (a : A) (bs : List A) → P a → All P bs → All P (insert_by rank a bs)
  unfolding insert_by
  All-insert_by P a [] p ps = (p, tt)
  All-insert_by P a (b ∷ bs) p (q, qs) = elim (Bool-cases (ltb_ℤ (rank a) (rank b))) [
    | inl lt ↦ rw lt (p, (q, qs))
    | inr ge ↦ rw ge (q, All-insert_by P a bs p qs)
  ]

  All-ge :
      (a b : A) (bs : List A)
      → ltb_ℤ (rank a) (rank b) ≡ true
      → All (λ c. rank b ≤ℤ rank c) bs
      → All (λ c. rank a ≤ℤ rank c) bs
  All-ge a b [] lt h = tt
  All-ge a b (c ∷ bs) lt (le, h) = (ground arith, All-ge a b bs lt h)

  insert_by-IsRanked : (a : A) (bs : List A) → IsRanked bs → IsRanked (insert_by rank a bs)
  unfolding insert_by
  insert_by-IsRanked a [] h = (tt, tt)
  insert_by-IsRanked a (b ∷ bs) (le, h) = elim (Bool-cases (ltb_ℤ (rank a) (rank b))) [
    | inl lt ↦ rw lt ((ground arith, All-ge a b bs lt le), (le, h))
    | inr ge ↦
        rw ge
          (All-insert_by (λ c. rank b ≤ℤ rank c) a bs (ground arith) le, insert_by-IsRanked a bs h)
  ]

-- Both lists of a manager are in order of priority.
pub record IsOrdered (m : WhitelistManager) : Type 0 where
  pub rules : IsRanked priority m.rules
  pub ip_rules : IsRanked ip_priority m.ip_rules

-- A history of registrations.
pub data Registration : Type 0 where
  plain : WhitelistRule → Registration
  by_ip : IpWhitelistRule → Registration

unfoldable pub register_all : List Registration → WhitelistManager → WhitelistManager
register_all [] m = m
register_all (plain r ∷ rs) m = register_all rs (register r m)
register_all (by_ip r ∷ rs) m = register_all rs (register_ip r m)

-- Registering any rules in any order keeps the rules of a manager in order of priority.
pub register_all-IsOrdered :
    (rs : List Registration) (m : WhitelistManager) → IsOrdered m → IsOrdered (register_all rs m)
unfolding register_all register register_ip
register_all-IsOrdered [] m h = h
register_all-IsOrdered (plain r ∷ rs) m h =
    register_all-IsOrdered rs (register r m)
      (record { rules = insert_by-IsRanked priority r m.rules h.rules; ip_rules = h.ip_rules })
register_all-IsOrdered (by_ip r ∷ rs) m h =
    register_all-IsOrdered rs (register_ip r m) (record {
      rules = h.rules;
      ip_rules = insert_by-IsRanked ip_priority r m.ip_rules h.ip_rules;
    })

-- In a manager whose rules are in order, a new rule is placed behind the rules of its own or a
-- smaller priority number and before those of a greater one, and moves no other rule.
pub register-IsPlaced :
    (r : WhitelistRule) (m : WhitelistManager)
    → IsOrdered m
    → IsPlaced priority r m.rules (register r m).rules
unfolding register
register-IsPlaced r m h = insert_by-IsPlaced priority r m.rules h.rules

module _ (x : Matchers) where
  some_rule-insert :
      (method path : String) (r : WhitelistRule) (rs : List WhitelistRule)
      → some_rule x method path (insert_by priority r rs)
        ≡ (matches x r method path || some_rule x method path rs)
  unfolding some_rule insert_by
  some_rule-insert method path r [] = ground arith
  some_rule-insert method path r (s ∷ rs) = ground (arith, some_rule-insert method path r rs)

  some_ip_rule-insert :
      (client_ip : String) (r : IpWhitelistRule) (rs : List IpWhitelistRule)
      → some_ip_rule x client_ip (insert_by ip_priority r rs)
        ≡ (match_with_ip x r client_ip || some_ip_rule x client_ip rs)
  unfolding some_ip_rule insert_by
  some_ip_rule-insert client_ip r [] = ground arith
  some_ip_rule-insert client_ip r (s ∷ rs) = ground (arith, some_ip_rule-insert client_ip r rs)

  abbrev pub applies : String → String → String → Registration → Bool
  applies method path client_ip (plain r) = matches x r method path
  applies method path client_ip (by_ip r) = match_with_ip x r client_ip

  with_ip_register :
      (method path client_ip : String) (r : WhitelistRule) (m : WhitelistManager)
      → is_whitelisted_with_ip x method path client_ip (register r m)
        ≡ (matches x r method path || is_whitelisted_with_ip x method path client_ip m)
  unfolding is_whitelisted_with_ip register
  with_ip_register method path client_ip r m =
      ground (arith, some_rule-insert method path r m.rules)

  with_ip_register_ip :
      (method path client_ip : String) (r : IpWhitelistRule) (m : WhitelistManager)
      → is_whitelisted_with_ip x method path client_ip (register_ip r m)
        ≡ (match_with_ip x r client_ip || is_whitelisted_with_ip x method path client_ip m)
  unfolding is_whitelisted_with_ip register_ip
  with_ip_register_ip method path client_ip r m =
      ground (arith, some_ip_rule-insert client_ip r m.ip_rules)

  -- A request is on the whitelist, its client's address included, exactly when a rule that was
  -- registered applies to it or it was on the whitelist before: neither the order of the
  -- registrations nor the priorities change the answer.
  pub is_whitelisted_with_ip-register_all :
      (method path client_ip : String) (rs : List Registration) (m : WhitelistManager)
      → is_whitelisted_with_ip x method path client_ip (register_all rs m) ≡ (
          any (applies method path client_ip) rs
          || is_whitelisted_with_ip x method path client_ip m)
  unfolding register_all
  is_whitelisted_with_ip-register_all method path client_ip [] m = refl
  is_whitelisted_with_ip-register_all method path client_ip (plain r ∷ rs) m = ground (
    arith,
    is_whitelisted_with_ip-register_all method path client_ip rs (register r m),
    with_ip_register method path client_ip r m,
  )
  is_whitelisted_with_ip-register_all method path client_ip (by_ip r ∷ rs) m = ground (
    arith,
    is_whitelisted_with_ip-register_all method path client_ip rs (register_ip r m),
    with_ip_register_ip method path client_ip r m,
  )

  -- The check without the client's address sees the plain rules only: an address rule alone never
  -- puts a request on the whitelist.
  pub is_whitelisted-register_ip :
      (method path : String) (r : IpWhitelistRule) (m : WhitelistManager)
      → is_whitelisted x method path (register_ip r m) ≡ is_whitelisted x method path m
  unfolding is_whitelisted register_ip
  is_whitelisted-register_ip method path r m = refl
