-- ===== src/RateLimit/Rules.antt =====
-- middleware/ratelimit.go: `getRuleAndKey`, which picks the rule and the key for a request.
pub mod Laws
use Prim.Native.String
use go_rpc_gateway.Prelude.{
  Bool, true, false, not, ◌&&◌, ◌||◌, Option, none, some, List, [], ◌∷◌, String, str_eq,
  if◌then◌else◌,
}
use go_rpc_gateway.Prelude.Int.{pos}
use go_rpc_gateway.RateLimit.Config.{
  LimitRule, Scope, global, per_ip, per_user, per_route, unknown, RouteLimit, IpRule, UserRule,
  RateLimitConfig, Request,
}

infixr 65 ◌^◌
abbrev pub ◌^◌ : String → String → String
a ^ b = String.◌++◌ a b

-- What the code calls of other packages: `matcher.MatchPathWithMethod`, `validator.IsIPAllowed`,
-- `IsIPBlocked` and `MatchIPPattern`, and whether `filepath.Match` reports a match.
pub record Matchers : Type 0 where
  pub match_path_with_method : String → String → String → List String → Bool
  pub is_ip_allowed : String → List String → Bool
  pub is_ip_blocked : String → List String → Bool
  pub match_ip_pattern : String → String → Bool
  pub filepath_match : String → String → Bool

-- What `getRuleAndKey` returns: a rule or nil, and a key.
abbrev pub Pick : Type 0
Pick = Option LimitRule × String

abbrev pub let_through : Pick
let_through = (none, "")

abbrev is_empty {ℓ} : {A : Type ℓ} → List A → Bool
is_empty [] = true
is_empty (x ∷ xs) = false

unfoldable pub generate_key : Request → Scope → String
generate_key r global = "global"
generate_key r per_ip = "ip:" ^ r.client_ip
generate_key r per_user = "user:" ^ r.user_id
generate_key r per_route = "route:" ^ r.method ^ ":" ^ r.path
generate_key r unknown = "global"

-- One request a second, a burst of one, a minute's window, an hour's block.
abbrev pub blacklist_rule : LimitRule
blacklist_rule = record {
  requests_per_second = pos 1;
  burst_size = pos 1;
  window_size = pos 60000000000;
  block_duration = pos 3600000000000;
}

module _ (x : Matchers) where
  route_limit : Request → RouteLimit → LimitRule → Pick
  route_limit r route limit =
      if route.per_user
      then (some limit, "route:" ^ route.path ^ ":user:" ^ r.user_id)
      else if route.per_ip
      then (some limit, "route:" ^ route.path ^ ":ip:" ^ r.client_ip)
      else (some limit, "route:" ^ route.path)

  -- The body of the first loop for a route that matches: it always returns.
  unfoldable pub decide_route : Request → RouteLimit → Pick
  unfolding route_limit
  decide_route r route =
      if not (is_empty route.whitelist) && x.is_ip_allowed r.client_ip route.whitelist
      then let_through
      else if not (is_empty route.blacklist) && x.is_ip_blocked r.client_ip route.blacklist
      then (some blacklist_rule, "blacklist:" ^ r.client_ip)
      else elim route.limit [ some limit ↦ route_limit r route limit | none ↦ let_through ]

  abbrev pub route_matches : Request → RouteLimit → Bool
  route_matches r route = x.match_path_with_method r.path r.method route.path route.methods

  -- The loops give `none` where they run to their end.
  unfoldable pub pick_route : Request → List RouteLimit → Option Pick
  pick_route r [] = none
  pick_route r (route ∷ routes) =
      if route_matches r route then some (decide_route r route) else pick_route r routes

  unfoldable pub pick_ip : Request → List IpRule → Option Pick
  pick_ip r [] = none
  pick_ip r (rule ∷ rules) =
      let rest = pick_ip r rules in
      if not (x.match_ip_pattern r.client_ip rule.ip)
      then rest
      else if str_eq rule.type "whitelist"
      then some let_through
      else elim rule.limit [ some limit ↦ some (some limit, "ip:" ^ r.client_ip) | none ↦ rest ]

  pub match_user : UserRule → String → Bool
  match_user rule user_id =
      if str_eq rule.user_id "" || str_eq rule.user_id "*"
      then true
      else x.filepath_match rule.user_id user_id

  pick_user_rule : Request → List UserRule → Option Pick
  pick_user_rule r [] = none
  pick_user_rule r (rule ∷ rules) =
      if match_user rule r.user_id
      then some (rule.limit, "user:" ^ r.user_id)
      else pick_user_rule r rules

  unfoldable pub pick_user : Request → List UserRule → Option Pick
  unfolding pick_user_rule match_user
  pick_user r rules = if str_eq r.user_id "" then none else pick_user_rule r rules

  unfoldable pub pick_global : RateLimitConfig → Request → Pick
  pick_global c r = elim c.global_limit [
    | some limit ↦ (some limit, generate_key r c.default_scope)
    | none ↦ let_through
  ]

  unfoldable pub get_rule_and_key : RateLimitConfig → Request → Pick
  get_rule_and_key c r = elim (pick_route r c.routes) [
    | some p ↦ p
    | none ↦ elim (pick_ip r c.ip_rules) [
      | some p ↦ p
      | none ↦ elim (pick_user r c.user_rules) [ some p ↦ p | none ↦ pick_global c r ]
    ]
  ]
