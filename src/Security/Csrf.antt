-- ===== src/Security/Csrf.antt =====
-- middleware/security.go: the CSRF check, with the tokens that the middleware keeps, and the list of
-- allowed addresses. Times are nanoseconds.
pub mod Laws
use Prim.Native.String
use go_rpc_gateway.Prelude.{
  ℕ, Bool, true, false, ◌||◌, Option, none, some, List, [], ◌∷◌, String, str_eq, ltb, if◌then◌else◌,
}
use go_rpc_gateway.Prelude.Int.{pos}
use go_rpc_gateway.Prelude.Decimal.{decimal}
use go_rpc_gateway.Prelude.Dict.{Dict, lookup}

pub data Outcome : Type 0 where
  next_called refused : Outcome

-- What the check reads of a request: the header's token, and that of the form.
pub record Request : Type 0 where
  pub method : String
  pub header_token : String
  pub form_token : String

-- `constants.CSRFExemptMethods`
abbrev pub is_exempt : String → Bool
is_exempt method =
    str_eq method "GET" || str_eq method "HEAD" || str_eq method "OPTIONS" || str_eq method "TRACE"

unfoldable pub get_csrf_token : Request → String
get_csrf_token r = if str_eq r.header_token "" then r.form_token else r.header_token

-- `delete(tokens, token)`
unfoldable pub delete : String → Dict ℕ → Dict ℕ
delete token [] = []
delete token (entry ∷ rest) =
    let others = delete token rest in if str_eq entry.0 token then others else entry ∷ others

unfoldable pub validate_csrf_token : ℕ → String → Dict ℕ → Dict ℕ × Bool
unfolding delete
validate_csrf_token now token tokens =
    if str_eq token "" then (tokens, false) else elim (lookup token tokens) [
      | none ↦ (tokens, false)
      | some expiry ↦ if ltb expiry now then (delete token tokens, false) else (tokens, true)
    ]

unfoldable pub csrf_protection_middleware : Bool → ℕ → Request → Dict ℕ → Dict ℕ × Outcome
unfolding get_csrf_token
csrf_protection_middleware enabled now r tokens =
    if enabled
    then (if is_exempt r.method
        then (tokens, next_called)
        else (let verdict = validate_csrf_token now (get_csrf_token r) tokens in
            (verdict.0, if verdict.1 then next_called else refused)))
    else (tokens, next_called)

-- The token that `CSRFTokenHandler` gives out; `sha256_hex` is the hash, in hexadecimal.
unfoldable pub generate_csrf_token : (String → String) → ℕ → String
unfolding decimal
generate_csrf_token sha256_hex seconds =
    sha256_hex (String.◌++◌ (decimal (pos seconds)) (String.◌++◌ ":" "csrf-secret"))

-- `is_ip_allowed` is `validator.IsIPAllowed`.
unfoldable pub ip_whitelist_middleware :
    (String → List String → Bool) → List String → String → Outcome
ip_whitelist_middleware is_ip_allowed [] client_ip = next_called
ip_whitelist_middleware is_ip_allowed (ip ∷ ips) client_ip =
    if is_ip_allowed client_ip (ip ∷ ips) then next_called else refused
