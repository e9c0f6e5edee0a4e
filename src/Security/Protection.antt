-- ===== src/Security/Protection.antt =====
-- middleware/security.go: the protection of paths with a prefix, by address, credentials and HTTPS.
pub mod Laws
use Prim.Native.Char.{code}
use Prim.Native.String
use Prim.Native.String.{len, slice, [], ◌∷◌}
use go_rpc_gateway.Prelude.{
  ℕ, suc, ◌+◌, Bool, true, false, ◌&&◌, Option, none, some, List, [], ◌∷◌, String, str_eq,
  starts_with, leb, ◌==◌, if◌then◌else◌,
}
use text.Mathlib.Text.{find?}

-- The fields of package go-config's protection of a service.
pub record ServiceProtection : Type 0 where
  pub enabled : Bool
  pub ip_whitelist : List String
  pub auth_required : Bool
  pub auth_type : String
  pub username : String
  pub password : String
  pub require_https : Bool

-- What the check reads of a request. `basic_auth` is `r.BasicAuth()`; `authorization` is the header,
-- empty if there is none.
pub record Request : Type 0 where
  pub path : String
  pub client_ip : String
  pub basic_auth : Option (String × String)
  pub authorization : String
  pub tls : Bool

-- What the code calls of other packages: `validator.IsIPAllowed`, and base64 in the standard
-- encoding.
pub record Library : Type 0 where
  pub is_ip_allowed : String → List String → Bool
  pub base64 : String → String

pub data Outcome : Type 0 where
  next_called forbidden unauthorized upgrade_required : Outcome

-- A letter of ASCII as a small one, by its code.
abbrev small : ℕ → ℕ
small c = if leb 65 c && leb c 90 then c + 32 else c

-- A text whose small letters are those of a list: no letter outside ASCII folds to one of "bearer".
abbrev folds_to : String → List ℕ → Bool
folds_to [] [] = true
folds_to [] (c ∷ cs) = false
folds_to (ch ∷ s) [] = false
folds_to (ch ∷ s) (c ∷ cs) = small (code ch) == c && folds_to s cs

-- `strings.ToLower(s) == "bearer"`, and `strings.EqualFold(s, "Bearer")`
unfoldable pub is_bearer : String → Bool
is_bearer s = folds_to s (b'b' ∷ b'e' ∷ b'a' ∷ b'r' ∷ b'e' ∷ b'r' ∷ [])

unfoldable pub should_protect_path : String → String → Option ServiceProtection → Bool
should_protect_path path prefix none = false
should_protect_path path prefix (some c) = if starts_with path prefix then c.enabled else false

unfoldable pub check_basic_authentication : Request → String → String → Bool
check_basic_authentication r username password = elim r.basic_auth [
  | none ↦ false
  | some (name, word) ↦ str_eq name username && str_eq word password
]

unfoldable pub check_https : Request → Bool → Bool
check_https r require_https = if require_https then r.tls else true

module _ (l : Library) where
  -- `strings.SplitN(header, " ", 2)`: the parts before and behind the first blank.
  unfoldable pub check_bearer_authentication : Request → String → String → Bool
  unfolding is_bearer
  check_bearer_authentication r username password = elim (find? r.authorization " ") [
    | none ↦ false
    | some i ↦
        is_bearer (slice r.authorization 0 i)
        && str_eq (slice r.authorization (suc i) (len r.authorization))
            (l.base64 (String.◌++◌ username (String.◌++◌ ":" password)))
  ]

  unfoldable pub check_path_authentication : Request → ServiceProtection → Bool
  unfolding is_bearer check_bearer_authentication check_basic_authentication
  check_path_authentication r c =
      if is_bearer c.auth_type
      then check_bearer_authentication r c.username c.password
      else check_basic_authentication r c.username c.password

  -- The three checks give true where the code returns nil.
  unfoldable pub check_ip_whitelist : Request → List String → Bool
  check_ip_whitelist r [] = true
  check_ip_whitelist r (ip ∷ ips) = l.is_ip_allowed r.client_ip (ip ∷ ips)

  unfoldable pub check_authentication : Request → ServiceProtection → Bool
  unfolding check_path_authentication
  check_authentication r c = if c.auth_required then check_path_authentication r c else true

  unfoldable pub validate_path_access : Request → ServiceProtection → Outcome
  unfolding check_ip_whitelist check_authentication check_https
  validate_path_access r c =
      if check_ip_whitelist r c.ip_whitelist
      then (if check_authentication r c
          then (if check_https r c.require_https then next_called else upgrade_required)
          else unauthorized)
      else forbidden

  unfoldable pub path_protection_middleware : String → Option ServiceProtection → Request → Outcome
  unfolding should_protect_path validate_path_access
  path_protection_middleware prefix protection r =
      if should_protect_path r.path prefix protection
      then elim protection [ none ↦ next_called | some c ↦ validate_path_access r c ]
      else next_called
