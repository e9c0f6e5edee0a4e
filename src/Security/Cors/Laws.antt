-- ===== src/Security/Cors/Laws.antt =====
-- Which origins the CORS headers of middleware/security.go let in.
use go_rpc_gateway.Prelude.{
  ◌≡◌, ◌≢◌, ◌↔◌, refl, Bool, true, false, none, some, List, [], ◌∷◌, ◌||◌, any, String, str_eq,
  eq_iff, if◌then◌else◌, arith, ◌∙◌,
}
use go_rpc_gateway.Prelude.Dict.{Dict, lookup, insert, lookup-insert}
use go_rpc_gateway.Security.Cors.{
  Cors, next_called, join, set_allow_origin, set_allow_methods, set_allow_headers,
  set_allow_credentials, set_max_age, set_cors_headers, cors_middleware,
}

-- The list holds the origin or the wildcard.
abbrev pub admits : String → List String → Bool
admits origin origins = any (λ o. str_eq o "*" || str_eq o origin) origins

abbrev pub allow_origin : String
allow_origin = "Access-Control-Allow-Origin"

lookup-set_allow_origin :
    (origin : String) (origins : List String) (h : Dict String)
    → lookup allow_origin (set_allow_origin origin origins h)
      ≡ (if admits origin origins then some origin else lookup allow_origin h)
unfolding set_allow_origin
lookup-set_allow_origin origin [] h = refl
lookup-set_allow_origin origin (o ∷ os) h =
    ground
      (arith, lookup-set_allow_origin origin os h, lookup-insert allow_origin allow_origin origin h)

other :
    (key value : String) (h : Dict String)
    → str_eq key allow_origin ≡ false
    → lookup allow_origin (insert key value h) ≡ lookup allow_origin h
other key value h e = lookup-insert key allow_origin value h ∙ rw e

lookup-set_allow_methods :
    (ms : List String) (h : Dict String)
    → lookup allow_origin (set_allow_methods ms h) ≡ lookup allow_origin h
unfolding set_allow_methods
lookup-set_allow_methods [] h = refl
lookup-set_allow_methods (m ∷ ms) h = other "Access-Control-Allow-Methods" (join (m ∷ ms)) h refl

lookup-set_allow_headers :
    (ms : List String) (h : Dict String)
    → lookup allow_origin (set_allow_headers ms h) ≡ lookup allow_origin h
unfolding set_allow_headers
lookup-set_allow_headers [] h = refl
lookup-set_allow_headers (m ∷ ms) h = other "Access-Control-Allow-Headers" (join (m ∷ ms)) h refl

lookup-set_allow_credentials :
    (allowed : Bool) (h : Dict String)
    → lookup allow_origin (set_allow_credentials allowed h) ≡ lookup allow_origin h
unfolding set_allow_credentials
lookup-set_allow_credentials true h = other "Access-Control-Allow-Credentials" "true" h refl
lookup-set_allow_credentials false h = refl

lookup-set_max_age :
    (age : String) (h : Dict String)
    → lookup allow_origin (set_max_age age h) ≡ lookup allow_origin h
unfolding set_max_age
lookup-set_max_age age h = ground (arith, other "Access-Control-Max-Age" age h refl)

-- The other headers leave that of the origin alone.
kept :
    (c : Cors) (merged : List String) (origin : String) (h : Dict String)
    → lookup allow_origin (set_cors_headers c merged origin h)
      ≡ lookup allow_origin (set_allow_origin origin c.allowed_origins h)
unfolding set_cors_headers
kept c merged origin h =
    lookup-set_max_age c.max_age _
    ∙ lookup-set_allow_credentials c.allow_credentials _
    ∙ lookup-set_allow_headers merged _
    ∙ lookup-set_allow_methods c.allowed_methods _

-- The answer names the request's origin as allowed exactly when the configured list holds it or the
-- wildcard, and no origin otherwise, whatever else is configured; and the next handler is called
-- exactly for a request that is no OPTIONS request.
pub cors_middleware_origin :
    (c : Cors) (merged : List String) (method origin : String)
    → (lookup allow_origin (cors_middleware c merged method origin []).0
        ≡ (if admits origin c.allowed_origins then some origin else none))
      × (((cors_middleware c merged method origin []).1 ≡ next_called) ↔ (method ≢ "OPTIONS"))
unfolding cors_middleware lookup
cors_middleware_origin c merged method origin = (
  kept c merged origin [] ∙ lookup-set_allow_origin origin c.allowed_origins [],
  ground (arith, eq_iff method "OPTIONS"),
)
