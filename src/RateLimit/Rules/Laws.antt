-- ===== src/RateLimit/Rules/Laws.antt =====
-- Which rule wins in `getRuleAndKey` of middleware/ratelimit.go.
use go_rpc_gateway.Prelude.{
  ◌≡◌, refl, true, false, none, some, List, [], ◌∷◌, ◌++◌, All, str_eq, eq_iff, ◌⊎◌, inl, inr,
  arith,
}
use go_rpc_gateway.RateLimit.Config.{RouteLimit, IpRule, UserRule, RateLimitConfig, Request}
use go_rpc_gateway.RateLimit.Rules.{
  Matchers, let_through, generate_key, decide_route, route_matches, pick_route, pick_ip, match_user,
  pick_user_rule, pick_user, pick_global, get_rule_and_key,
}

module _ (x : Matchers) (r : Request) where
  pick_route_first :
      (before : List RouteLimit) (route : RouteLimit) (after : List RouteLimit)
      → All (λ s. route_matches x r s ≡ false) before
      → route_matches x r route ≡ true
      → pick_route x r (before ++ route ∷ after) ≡ some (decide_route x r route)
  unfolding pick_route
  pick_route_first [] route after none_before here = ground arith
  pick_route_first (s ∷ before) route after (skip, others) here =
      ground (arith, pick_route_first before route after others here)

  -- Only the first route that matches counts: the routes before it do not match, and the pick is its
  -- decision, whatever the later routes, the rules for addresses and users and the global limit say.
  pub get_rule_and_key_first_route :
      (c : RateLimitConfig) (before : List RouteLimit) (route : RouteLimit)
      (after : List RouteLimit)
      → c.routes ≡ before ++ route ∷ after
      → All (λ s. route_matches x r s ≡ false) before
      → route_matches x r route ≡ true
      → get_rule_and_key x c r ≡ decide_route x r route
  unfolding get_rule_and_key
  get_rule_and_key_first_route c before route after e none_before here =
      ground (arith, pick_route_first before route after none_before here)

  -- An address rule that says nothing about the request: its pattern does not match the client, or
  -- it is no whitelist and has no limit.
  abbrev pub IsIdle : IpRule → Type 0
  IsIdle rule =
      (x.match_ip_pattern r.client_ip rule.ip ≡ false)
      ⊎ ((str_eq rule.type "whitelist" ≡ false) × (rule.limit ≡ none))

  pick_route-none :
      (routes : List RouteLimit)
      → All (λ s. route_matches x r s ≡ false) routes
      → pick_route x r routes ≡ none
  unfolding pick_route
  pick_route-none [] h = refl
  pick_route-none (s ∷ routes) (skip, others) = ground (arith, pick_route-none routes others)

  pick_ip-none : (rules : List IpRule) → All IsIdle rules → pick_ip x r rules ≡ none
  unfolding pick_ip
  pick_ip-none [] h = refl
  pick_ip-none (rule ∷ rules) (idle, others) = ground (arith, pick_ip-none rules others)

  pick_user_none :
      (rules : List UserRule)
      → All (λ u. match_user x u r.user_id ≡ false) rules
      → pick_user_rule x r rules ≡ none
  unfolding pick_user_rule
  pick_user_none [] h = refl
  pick_user_none (u ∷ rules) (skip, others) = ground (arith, pick_user_none rules others)

  -- The global limit, with the key of the default scope, applies where no route matches, every
  -- address rule is idle, and the request has no user or no user rule matches. Without a global
  -- limit such a request is let through.
  pub get_rule_and_key_global :
      (c : RateLimitConfig)
      → All (λ s. route_matches x r s ≡ false) c.routes
      → All IsIdle c.ip_rules
      → (r.user_id ≡ "") ⊎ All (λ u. match_user x u r.user_id ≡ false) c.user_rules
      → get_rule_and_key x c r ≡ elim c.global_limit [
        | some limit ↦ (some limit, generate_key r c.default_scope)
        | none ↦ let_through
      ]
  unfolding get_rule_and_key pick_user pick_global
  get_rule_and_key_global c routes ips (inl nobody) =
      ground
        (arith, pick_route-none c.routes routes, pick_ip-none c.ip_rules ips, eq_iff r.user_id "")
  get_rule_and_key_global c routes ips (inr users) = ground (
    arith,
    pick_route-none c.routes routes,
    pick_ip-none c.ip_rules ips,
    pick_user_none c.user_rules users,
  )
