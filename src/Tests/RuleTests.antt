-- ===== src/Tests/RuleTests.antt =====
-- Rules and decisions of middleware/ratelimit.go for one request.
use go_rpc_gateway.Prelude.{
  ◌≡◌, refl, ◌↔◌, Bool, true, false, Option, none, some, List, [], ◌∷◌, String, str_eq,
  if◌then◌else◌,
}
use go_rpc_gateway.Prelude.Int.{pos}
use go_rpc_gateway.RateLimit.Config.{
  LimitRule, Strategy, token_bucket, unset, per_ip, RouteLimit, RateLimitConfig, Request,
}
use go_rpc_gateway.RateLimit.Rules.{
  Matchers, let_through, generate_key, decide_route, get_rule_and_key,
}
use go_rpc_gateway.RateLimit.Decisions.{Decision, Reply, allowed, next_called, middleware}
use go_rpc_gateway.RateLimit.Decisions.Laws.{GetsThrough, middleware-next_called_iff}

-- Exact comparison of paths and addresses.
abbrev member : String → List String → Bool
member a [] = false
member a (b ∷ bs) = if str_eq a b then true else member a bs

abbrev exact : Matchers
exact = record {
  match_path_with_method = λ path method pattern methods. str_eq path pattern;
  is_ip_allowed = member;
  is_ip_blocked = member;
  match_ip_pattern = str_eq;
  filepath_match = str_eq;
}

abbrev limit : LimitRule
limit = record {
  requests_per_second = pos 5;
  burst_size = pos 5;
  window_size = pos 1000000000;
  block_duration = pos 0;
}

abbrev route : String → RouteLimit
route path = record {
  path = path;
  methods = [];
  whitelist = "10.0.0.1" ∷ [];
  blacklist = "10.0.0.1" ∷ [];
  limit = some limit;
  per_user = false;
  per_ip = true;
}

abbrev config : RateLimitConfig
config = record {
  enabled = true;
  strategy = token_bucket;
  routes = route "/a" ∷ route "/b" ∷ route "/b" ∷ [];
  ip_rules = record { ip = "10.0.0.9"; type = "limit"; limit = none } ∷ [];
  user_rules = [];
  global_limit = some limit;
  default_scope = per_ip;
}

abbrev request : String → Request
request path = record { method = "GET"; path = path; client_ip = "10.0.0.1"; user_id = "" }

whitelist_wins : get_rule_and_key exact config (request "/b") ≡ let_through
unfolding get_rule_and_key decide_route go_rpc_gateway.RateLimit.Rules.pick_route
whitelist_wins = refl

-- A limiter that lets everything through and counts.
abbrev counting : Strategy → Option (String → Option LimitRule → List String → List String × Reply)
counting strategy = some (λ key rule s. (key ∷ s, allowed))

middleware-next_called_iff_example :
    (middleware {E = String} counting exact config none (request "/c") []
      ≡ ("ip:10.0.0.1" ∷ [], next_called))
    ↔ GetsThrough {E = String} counting exact config none (request "/c") [] ("ip:10.0.0.1" ∷ [])
middleware-next_called_iff_example =
    middleware-next_called_iff {E = String} counting exact config none (request "/c") []
      ("ip:10.0.0.1" ∷ [])

abbrev dynamic : List Decision
dynamic =
    record { rule = some limit; key = ""; strategy = unset }
    ∷ record { rule = none; key = "x"; strategy = unset }
    ∷ []
