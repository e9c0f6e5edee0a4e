-- ===== src/Whitelist.antt =====
-- middleware/whitelist.go: whitelist rules in order of priority, and the manager that keeps them.
-- Descriptions are left out. A regular expression is the test of its compiled pattern.
pub mod Builder
pub mod Laws
use Prim.Native.String.{len, slice}
use go_rpc_gateway.Prelude.{
  ◌-◌, Bool, true, false, ◌&&◌, List, [], ◌∷◌, String, str_eq, starts_with, leb, if◌then◌else◌,
}
use go_rpc_gateway.Prelude.Int.{ℤ, ltb_ℤ}

-- What the rules call of other packages: `matcher.MatchMethod`, `matcher.MatchPathWithMethod` and
-- `validator.IsIPAllowed`.
pub record Matchers : Type 0 where
  pub match_method : List String → String → Bool
  pub match_path_with_method : String → String → String → List String → Bool
  pub is_ip_allowed : String → List String → Bool

pub data WhitelistRule : Type 0 where
  path_prefix : (prefix : String) (methods : List String) (priority : ℤ) → WhitelistRule
  path_glob : (pattern : String) (methods : List String) (priority : ℤ) → WhitelistRule
  exact_path : (method path : String) (priority : ℤ) → WhitelistRule
  path_suffix : (suffix : String) (priority : ℤ) → WhitelistRule
  regex : (match_string : String → Bool) (priority : ℤ) → WhitelistRule
  method_only : (methods : List String) (priority : ℤ) → WhitelistRule
  custom : (match_func : String → String → Bool) (priority : ℤ) → WhitelistRule

-- The rules that look at the client's address: single addresses and networks.
pub data IpWhitelistRule : Type 0 where
  ip : (allowed_ips : List String) (priority : ℤ) → IpWhitelistRule
  cidr : (allowed_cidrs : List String) (priority : ℤ) → IpWhitelistRule

abbrev pub priority : WhitelistRule → ℤ
priority (path_prefix prefix methods p) = p
priority (path_glob pattern methods p) = p
priority (exact_path method path p) = p
priority (path_suffix suffix p) = p
priority (regex match_string p) = p
priority (method_only methods p) = p
priority (custom match_func p) = p

abbrev pub ip_priority : IpWhitelistRule → ℤ
ip_priority (ip ips p) = p
ip_priority (cidr cidrs p) = p

-- `strings.HasSuffix`
unfoldable pub has_suffix : String → String → Bool
has_suffix s t = leb (len t) (len s) && str_eq (slice s (len s - len t) (len s)) t

abbrev is_empty : List String → Bool
is_empty [] = true
is_empty (x ∷ xs) = false

module _ (x : Matchers) where
  unfoldable pub matches : WhitelistRule → String → String → Bool
  unfolding has_suffix
  matches (path_prefix prefix methods p) method path =
      if starts_with path prefix
      then if is_empty methods then true else x.match_method methods method
      else false
  matches (path_glob pattern methods p) method path =
      x.match_path_with_method path method pattern methods
  matches (exact_path rule_method rule_path p) method path =
      x.match_method (rule_method ∷ []) method && str_eq path rule_path
  matches (path_suffix suffix p) method path = has_suffix path suffix
  matches (regex match_string p) method path = match_string path
  matches (method_only methods p) method path = x.match_method methods method
  matches (custom match_func p) method path = match_func method path

  unfoldable pub match_with_ip : IpWhitelistRule → String → Bool
  match_with_ip (ip ips p) client_ip = x.is_ip_allowed client_ip ips
  match_with_ip (cidr cidrs p) client_ip = x.is_ip_allowed client_ip cidrs

pub record WhitelistManager : Type 0 where
  pub rules : List WhitelistRule
  pub ip_rules : List IpWhitelistRule

unfoldable pub new_whitelist_manager : WhitelistManager
new_whitelist_manager = record { rules = []; ip_rules = [] }

-- The insertion of `Register`: before the first rule of a greater priority number, else at the end.
unfoldable pub insert_by {ℓ} : {A : Type ℓ} → (A → ℤ) → A → List A → List A
insert_by rank a [] = a ∷ []
insert_by rank a (b ∷ bs) = if ltb_ℤ (rank a) (rank b) then a ∷ b ∷ bs else b ∷ insert_by rank a bs

-- `Register` asks whether the rule looks at the client's address, and keeps such rules apart.
unfoldable pub register : WhitelistRule → WhitelistManager → WhitelistManager
register rule m = record m { rules = insert_by priority rule m.rules }

unfoldable pub register_ip : IpWhitelistRule → WhitelistManager → WhitelistManager
register_ip rule m = record m { ip_rules = insert_by ip_priority rule m.ip_rules }

unfoldable pub get_rules : WhitelistManager → List WhitelistRule
get_rules m = m.rules

unfoldable pub clear : WhitelistManager → WhitelistManager
clear m = record m { rules = []; ip_rules = [] }

module _ (x : Matchers) where
  some_rule : String → String → List WhitelistRule → Bool
  some_rule method path [] = false
  some_rule method path (r ∷ rs) =
      if matches x r method path then true else some_rule method path rs

  some_ip_rule : String → List IpWhitelistRule → Bool
  some_ip_rule client_ip [] = false
  some_ip_rule client_ip (r ∷ rs) =
      if match_with_ip x r client_ip then true else some_ip_rule client_ip rs

  unfoldable pub is_whitelisted : String → String → WhitelistManager → Bool
  unfolding some_rule
  is_whitelisted method path m = some_rule method path m.rules

  unfoldable pub is_whitelisted_with_ip : String → String → String → WhitelistManager → Bool
  unfolding some_rule some_ip_rule
  is_whitelisted_with_ip method path client_ip m =
      if some_ip_rule client_ip m.ip_rules then true else some_rule method path m.rules
