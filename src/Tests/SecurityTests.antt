-- ===== src/Tests/SecurityTests.antt =====
-- The security checks (middleware/security.go).

use go_rpc_gateway.Prelude.{
  ℕ, ◌≡◌, ◌⊎◌, ◌↔◌, refl, true, false, none, some, List, [], ◌∷◌, String, str_eq, starts_with,
}
use go_rpc_gateway.Security.Cors.{Cors}
use go_rpc_gateway.Security.Csrf
use go_rpc_gateway.Security.Csrf.{refused}
use go_rpc_gateway.Security.Csrf.Laws.{answers, answers_refused}
use go_rpc_gateway.Security.Protection
use go_rpc_gateway.Security.Protection.{ServiceProtection, Library, path_protection_middleware}
use go_rpc_gateway.Security.Protection.Laws.{Meets, path_protection_middleware-next_iff}

abbrev origin : String
origin = "https://app.example.org"

abbrev cors : Cors
cors = record {
  allowed_origins = "https://www.example.org" ∷ origin ∷ [];
  allowed_methods = "GET" ∷ "POST" ∷ [];
  allow_credentials = true;
  max_age = "600";
}

abbrev posts : List (ℕ × Csrf.Request)
posts =
    (5, record { method = "GET"; header_token = ""; form_token = "" })
    ∷ (9, record { method = "POST"; header_token = "token"; form_token = "" })
    ∷ []

answers_refused_example : answers true posts [] ≡ Csrf.next_called ∷ refused ∷ []
answers_refused_example = answers_refused posts

abbrev library : Library
library = record { is_ip_allowed = λ ip ips. str_eq ip "10.0.0.1"; base64 = λ s. s }

abbrev protection : ServiceProtection
protection = record {
  enabled = true;
  ip_whitelist = "10.0.0.1" ∷ [];
  auth_required = true;
  auth_type = "Bearer";
  username = "admin";
  password = "secret";
  require_https = false;
}

abbrev visit : Protection.Request
visit = record {
  path = "/metrics/all";
  client_ip = "10.0.0.1";
  basic_auth = none;
  authorization = "bearer admin:secret";
  tls = false;
}

path_protection_middleware-next_iff_example :
    (path_protection_middleware library "/metrics" (some protection) visit ≡ Protection.next_called)
    ↔ ((starts_with "/metrics/all" "/metrics" ≡ false)
        ⊎ (protection.enabled ≡ false)
        ⊎ Meets library protection visit)
path_protection_middleware-next_iff_example =
    path_protection_middleware-next_iff library "/metrics" protection visit

-- The header's token is accepted with the scheme in small letters.
visit_runs :
    path_protection_middleware library "/metrics" (some protection) visit ≡ Protection.next_called
unfolding path_protection_middleware Protection.should_protect_path Protection.validate_path_access
    Protection.check_ip_whitelist Protection.check_authentication
    Protection.check_path_authentication Protection.check_bearer_authentication Protection.is_bearer
    Protection.check_https
visit_runs = refl
