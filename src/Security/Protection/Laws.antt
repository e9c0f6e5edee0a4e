-- ===== src/Security/Protection/Laws.antt =====
-- Who gets to a protected path of middleware/security.go.
use Prim.Native.String
use Prim.Native.String.{len, slice}
use go_rpc_gateway.Prelude.{
  ℕ, suc, ◌≡◌, ◌⊎◌, ◌↔◌, inl, inr, true, false, some, [], Bool-cases, Option-cases, String, eq_iff,
  starts_with, arith,
}
use text.Mathlib.Text.{find?}
use go_rpc_gateway.Security.Protection.{
  ServiceProtection, Request, Library, next_called, is_bearer, check_basic_authentication,
  check_bearer_authentication, check_path_authentication, check_ip_whitelist, check_authentication,
  check_https, validate_path_access, path_protection_middleware,
}

module _ (l : Library) (c : ServiceProtection) (r : Request) where
  -- The credentials that a protection accepts: by the scheme Bearer the token made of the name and
  -- the password, by any other the name and the password themselves.
  pub data Proves : Type 0 where
    bearer :
        (i : ℕ)
        → is_bearer c.auth_type ≡ true
        → find? r.authorization " " ≡ some i
        → is_bearer (slice r.authorization 0 i) ≡ true
        → slice r.authorization (suc i) (len r.authorization)
          ≡ l.base64 (String.◌++◌ c.username (String.◌++◌ ":" c.password))
        → Proves
    basic : is_bearer c.auth_type ≡ false → r.basic_auth ≡ some (c.username, c.password) → Proves

  -- A request that meets every demand of a protection.
  pub record Meets : Type 0 where
    pub address : (c.ip_whitelist ≡ []) ⊎ (l.is_ip_allowed r.client_ip c.ip_whitelist ≡ true)
    pub credentials : (c.auth_required ≡ false) ⊎ Proves
    pub secure : (c.require_https ≡ false) ⊎ (r.tls ≡ true)

  address_iff :
      (check_ip_whitelist l r c.ip_whitelist ≡ true)
      ↔ ((c.ip_whitelist ≡ []) ⊎ (l.is_ip_allowed r.client_ip c.ip_whitelist ≡ true))
  unfolding check_ip_whitelist
  address_iff = ground arith

  basic_iff :
      (check_basic_authentication r c.username c.password ≡ true)
      ↔ (r.basic_auth ≡ some (c.username, c.password))
  unfolding check_basic_authentication
  basic_iff = elim (Option-cases r.basic_auth) [
    | inl missing ↦ ground (arith, missing)
    | inr ((name, word), found) ↦
        ground (arith, found, eq_iff name c.username, eq_iff word c.password)
  ]

  bearer-Proves :
      is_bearer c.auth_type ≡ true
      → check_bearer_authentication l r c.username c.password ≡ true
      → Proves
  unfolding check_bearer_authentication
  bearer-Proves scheme h = elim (Option-cases (find? r.authorization " ")) [
    | inl missing ↦ absurd (ground (arith, missing, h))
    | inr (i, found) ↦
        let token = slice r.authorization (suc i) (len r.authorization) in
        let expected = l.base64 (String.◌++◌ c.username (String.◌++◌ ":" c.password)) in
        bearer i scheme found (ground (arith, found, h))
          (ground (arith, found, h, eq_iff token expected))
  ]

  bearer_of_parts :
      (i : ℕ)
      → find? r.authorization " " ≡ some i
      → is_bearer (slice r.authorization 0 i) ≡ true
      → slice r.authorization (suc i) (len r.authorization)
        ≡ l.base64 (String.◌++◌ c.username (String.◌++◌ ":" c.password))
      → check_bearer_authentication l r c.username c.password ≡ true
  unfolding check_bearer_authentication
  bearer_of_parts i found scheme token = ground (
    arith,
    found,
    scheme,
    token,
    eq_iff (slice r.authorization (suc i) (len r.authorization))
        (l.base64 (String.◌++◌ c.username (String.◌++◌ ":" c.password))),
  )

  authentication_accepts : Proves → check_path_authentication l r c ≡ true
  unfolding check_path_authentication
  authentication_accepts (bearer i scheme found prefix token) =
      ground (arith, scheme, bearer_of_parts i found prefix token)
  authentication_accepts (basic scheme found) = ground (arith, scheme, found, basic_iff)

  authentication-Proves : check_path_authentication l r c ≡ true → Proves
  unfolding check_path_authentication
  authentication-Proves h = elim (Bool-cases (is_bearer c.auth_type)) [
    | inl scheme ↦ bearer-Proves scheme (ground (arith, scheme, h))
    | inr scheme ↦ basic scheme (ground (arith, scheme, h, basic_iff))
  ]

  accepted : Meets → validate_path_access l r c ≡ next_called
  unfolding validate_path_access check_authentication check_https
  accepted m = elim m.credentials [
    | inl free ↦ ground (arith, free, m.address, m.secure, address_iff)
    | inr proof ↦ ground (arith, authentication_accepts proof, m.address, m.secure, address_iff)
  ]

  credentials_of_check : check_authentication l r c ≡ true → (c.auth_required ≡ false) ⊎ Proves
  unfolding check_authentication
  credentials_of_check h = elim (Bool-cases c.auth_required) [
    | inl needed ↦ inr (authentication-Proves (ground (arith, needed, h)))
    | inr free ↦ inl free
  ]

  meets : validate_path_access l r c ≡ next_called → Meets
  unfolding validate_path_access check_https
  meets h = record {
    address = ground (arith, h, address_iff);
    credentials = credentials_of_check (ground (arith, h));
    secure = ground (arith, h);
  }

-- A request gets to the next handler exactly when its path has not the prefix, the protection is
-- off, or it meets every demand: an address on the list, if there is a list; the credentials, if
-- they are required; HTTPS, if it is required.
pub path_protection_middleware-next_iff :
    (l : Library) (prefix : String) (c : ServiceProtection) (r : Request)
    → (path_protection_middleware l prefix (some c) r ≡ next_called)
      ↔ ((starts_with r.path prefix ≡ false) ⊎ (c.enabled ≡ false) ⊎ Meets l c r)
unfolding path_protection_middleware
path_protection_middleware-next_iff l prefix c r = (
  λ h. elim (Bool-cases (starts_with r.path prefix)) [
    | inl here ↦ elim (Bool-cases c.enabled) [
      | inl on ↦ inr (inr (meets l c r (ground (arith, here, on, h))))
      | inr off ↦ inr (inl off)
    ]
    | inr elsewhere ↦ inl elsewhere
  ],
  λ h. elim h [
    | inl elsewhere ↦ ground (arith, elsewhere)
    | inr (inl off) ↦ ground (arith, off)
    | inr (inr m) ↦ ground (arith, accepted l c r m)
  ],
)
