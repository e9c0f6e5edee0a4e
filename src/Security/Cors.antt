-- ===== src/Security/Cors.antt =====
-- middleware/security.go: the CORS and CSP headers. An answer's headers are a dictionary; `Set`
-- replaces the value of a key.
pub mod Laws
use Prim.Native.String
use go_rpc_gateway.Prelude.{Bool, List, [], ◌∷◌, ◌||◌, String, str_eq, if◌then◌else◌}
use go_rpc_gateway.Prelude.Dict.{Dict, insert}

-- The fields of package go-config's CORS configuration.
pub record Cors : Type 0 where
  pub allowed_origins : List String
  pub allowed_methods : List String
  pub allow_credentials : Bool
  pub max_age : String

pub data Outcome : Type 0 where
  next_called no_content : Outcome

-- `strings.Join(texts, ", ")`
unfoldable pub join : List String → String
join [] = ""
join (s ∷ []) = s
join (s ∷ t ∷ rest) = String.◌++◌ s (String.◌++◌ ", " (join (t ∷ rest)))

unfoldable pub set_allow_origin : String → List String → Dict String → Dict String
set_allow_origin origin [] h = h
set_allow_origin origin (allowed ∷ rest) h =
    if str_eq allowed "*" || str_eq allowed origin
    then insert "Access-Control-Allow-Origin" origin h
    else set_allow_origin origin rest h

unfoldable pub set_allow_methods : List String → Dict String → Dict String
set_allow_methods [] h = h
set_allow_methods (m ∷ ms) h = insert "Access-Control-Allow-Methods" (join (m ∷ ms)) h

unfoldable pub set_allow_headers : List String → Dict String → Dict String
set_allow_headers [] h = h
set_allow_headers (m ∷ ms) h = insert "Access-Control-Allow-Headers" (join (m ∷ ms)) h

unfoldable pub set_allow_credentials : Bool → Dict String → Dict String
set_allow_credentials allowed h =
    if allowed then insert "Access-Control-Allow-Credentials" "true" h else h

unfoldable pub set_max_age : String → Dict String → Dict String
set_max_age max_age h = if str_eq max_age "" then h else insert "Access-Control-Max-Age" max_age h

unfoldable pub set_cors_headers : Cors → List String → String → Dict String → Dict String
unfolding set_allow_methods set_allow_headers set_allow_credentials set_max_age
set_cors_headers c merged origin h = set_max_age c.max_age (
    set_allow_credentials c.allow_credentials (
      set_allow_headers merged
        (set_allow_methods c.allowed_methods (set_allow_origin origin c.allowed_origins h))))

-- `merged` is `mathx.SliceUnion` of the default headers and those of the configuration.
unfoldable pub cors_middleware :
    Cors → List String → String → String → Dict String → Dict String × Outcome
cors_middleware c merged method origin h = (
  set_cors_headers c merged origin h,
  if str_eq method "OPTIONS" then no_content else next_called,
)

-- The headers that `SCPMiddleware` sets before it calls the next handler.
unfoldable pub scp_middleware : String → Dict String → Dict String
scp_middleware policy h =
    let base = insert "Referrer-Policy" "strict-origin-when-cross-origin" (
      insert "Strict-Transport-Security" "max-age=31536000; includeSubDomains" (
        insert "X-XSS-Protection" "1; mode=block"
          (insert "X-Frame-Options" "DENY" (insert "X-Content-Type-Options" "nosniff" h)))) in
    if str_eq policy "" then base else insert "Content-Security-Policy" policy base
