-- ===== src/RateLimit/Config.antt =====
-- The configuration that middleware/ratelimit.go reads, of package go-config: the fields that the
-- code uses. A nil pointer is `none`. Of a request it reads what is recorded here; the client's
-- address is netx's, the user's id that of the request context.
use go_rpc_gateway.Prelude.{Bool, Option, List, String}
use go_rpc_gateway.Prelude.Int.{ℤ}

pub record LimitRule : Type 0 where
  pub requests_per_second : ℤ
  pub burst_size : ℤ
  pub window_size : ℤ  -- time.Duration, nanoseconds
  pub block_duration : ℤ  -- time.Duration

-- `unset` is the empty string, `unknown` any other text.
pub data Strategy : Type 0 where
  sliding_window fixed_window token_bucket unset unknown : Strategy

pub data Scope : Type 0 where
  global per_ip per_user per_route unknown : Scope

pub record RouteLimit : Type 0 where
  pub path : String
  pub methods : List String
  pub whitelist : List String
  pub blacklist : List String
  pub limit : Option LimitRule
  pub per_user : Bool
  pub per_ip : Bool

pub record IpRule : Type 0 where
  pub ip : String
  pub type : String
  pub limit : Option LimitRule

pub record UserRule : Type 0 where
  pub user_id : String
  pub limit : Option LimitRule

pub record RateLimitConfig : Type 0 where
  pub enabled : Bool
  pub strategy : Strategy
  pub routes : List RouteLimit
  pub ip_rules : List IpRule
  pub user_rules : List UserRule
  pub global_limit : Option LimitRule
  pub default_scope : Scope

pub record Request : Type 0 where
  pub method : String
  pub path : String
  pub client_ip : String
  pub user_id : String
