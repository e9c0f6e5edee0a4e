-- ===== src/Tests/WhitelistTests.antt =====
-- Registrations and requests of middleware/whitelist.go.
use go_rpc_gateway.Prelude.{
  ◌≡◌, Bool, true, false, ◌||◌, any, List, [], ◌∷◌, String, str_eq, if◌then◌else◌, arith,
}
use go_rpc_gateway.Prelude.Int.{pos}
use go_rpc_gateway.Whitelist.{
  Matchers, path_prefix, exact_path, ip, WhitelistManager, is_whitelisted_with_ip,
}
use go_rpc_gateway.Whitelist.Laws.{
  IsOrdered, Registration, plain, by_ip, register_all, applies, is_whitelisted_with_ip-register_all,
}

abbrev member : String → List String → Bool
member a [] = false
member a (b ∷ bs) = if str_eq a b then true else member a bs

abbrev exact : Matchers
exact = record {
  match_method = λ methods method. member method methods;
  match_path_with_method = λ path method pattern methods. str_eq path pattern;
  is_ip_allowed = member;
}

abbrev registrations : List Registration
registrations =
    plain (path_prefix "/pub" [] (pos 100))
    ∷ by_ip (ip ("10.0.0.1" ∷ []) (pos 5))
    ∷ plain (exact_path "GET" "/login" (pos 50))
    ∷ []

abbrev manager : WhitelistManager
manager = record {
  rules = exact_path "GET" "/login" (pos 50) ∷ path_prefix "/pub" [] (pos 100) ∷ [];
  ip_rules = [];
}

manager-IsOrdered : IsOrdered manager
manager-IsOrdered = record { rules = omega arith; ip_rules = tt }

is_whitelisted_with_ip-register_all_example :
    is_whitelisted_with_ip exact "GET" "/x" "10.0.0.1" (register_all registrations manager) ≡ (
      any (applies exact "GET" "/x" "10.0.0.1") registrations
      || is_whitelisted_with_ip exact "GET" "/x" "10.0.0.1" manager)
is_whitelisted_with_ip-register_all_example =
    is_whitelisted_with_ip-register_all exact "GET" "/x" "10.0.0.1" registrations manager
