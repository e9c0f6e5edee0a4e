-- ===== src/Whitelist/Builder.antt =====
-- middleware/whitelist.go: the rule builder and the preset rules, with their priorities.
use go_rpc_gateway.Prelude.{Bool, List, [], String}
use go_rpc_gateway.Prelude.Int.{ℤ, pos}
use go_rpc_gateway.Whitelist.{
  WhitelistManager, WhitelistRule, path_prefix, path_glob, exact_path, path_suffix, regex,
  method_only, custom, ip, cidr, register, register_ip,
}

unfoldable pub add_path_prefix : String → WhitelistManager → WhitelistManager
add_path_prefix prefix m = register (path_prefix prefix [] (pos 100)) m

unfoldable pub add_path_prefix_with_priority : String → ℤ → WhitelistManager → WhitelistManager
add_path_prefix_with_priority prefix priority m = register (path_prefix prefix [] priority) m

unfoldable pub add_path_prefix_with_methods :
    String → List String → WhitelistManager → WhitelistManager
add_path_prefix_with_methods prefix methods m = register (path_prefix prefix methods (pos 100)) m

unfoldable pub add_path_glob : String → List String → WhitelistManager → WhitelistManager
add_path_glob pattern methods m = register (path_glob pattern methods (pos 80)) m

unfoldable pub add_exact_path : String → String → WhitelistManager → WhitelistManager
add_exact_path method path m = register (exact_path method path (pos 50)) m

unfoldable pub add_path_suffix : String → WhitelistManager → WhitelistManager
add_path_suffix suffix m = register (path_suffix suffix (pos 150)) m

-- The pattern is compiled by package regexp.
unfoldable pub add_regex : (String → Bool) → WhitelistManager → WhitelistManager
add_regex match_string m = register (regex match_string (pos 200)) m

unfoldable pub add_methods : List String → WhitelistManager → WhitelistManager
add_methods methods m = register (method_only methods (pos 300)) m

unfoldable pub add_custom : (String → String → Bool) → ℤ → WhitelistManager → WhitelistManager
add_custom match_func priority m = register (custom match_func priority) m

unfoldable pub add_ip : List String → WhitelistManager → WhitelistManager
add_ip ips m = register_ip (ip ips (pos 5)) m

unfoldable pub add_cidr : List String → WhitelistManager → WhitelistManager
add_cidr cidrs m = register_ip (cidr cidrs (pos 5)) m

unfoldable pub health_check : WhitelistRule
health_check = path_prefix "/health" [] (pos 10)

unfoldable pub metrics : WhitelistRule
metrics = path_prefix "/metrics" [] (pos 10)

unfoldable pub static_files : String → WhitelistRule
static_files prefix = path_prefix prefix [] (pos 100)

unfoldable pub public_api : String → WhitelistRule
public_api prefix = path_prefix prefix [] (pos 80)

unfoldable pub swagger : WhitelistRule
swagger = path_prefix "/swagger" [] (pos 10)

unfoldable pub pprof : WhitelistRule
pprof = path_prefix "/debug/pprof" [] (pos 10)
