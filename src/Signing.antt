-- ===== src/Signing.antt =====
-- middleware/signature.go and middleware/dynamic.go: the check of a request's signature. An error of
-- `Validate` is a failure; an application error keeps its text.
pub mod Laws
pub mod Replays
use Prim.Native.String
use go_rpc_gateway.Prelude.{
  Bool, true, false, Option, none, some, List, String, str_eq, if◌then◌else◌,
}
use go_rpc_gateway.RequestContext.Fields.{RequestCommonMeta}

pub data SignatureType : Type 0 where
  hmac rsa unknown : SignatureType

-- The fields of package go-config's signature configuration that the check reads. `A` is the type
-- of hash algorithms.
pub record Config (A : Type 0) : Type 0 where
  pub enabled : Bool
  pub type : SignatureType
  pub ignore_paths : List String
  pub skip_body : Bool
  pub skip_query : Bool
  pub secret_key : String
  pub algorithm : A
  pub public_key_pem : String

-- What the check reads of a request. `body` is what `httpx.ReadRequestBody` gives, `none` for an
-- error.
pub record Request : Type 0 where
  pub path : String
  pub meta : RequestCommonMeta
  pub raw_query : String
  pub body : Option String

-- What the code calls of other packages: `validator.MatchPathInList`; the signer of package sign
-- with its result in base64, `none` for an error; `sign.ParsePublicKey`; and RSA verification of a
-- signature in base64 against the SHA-256 hash of a text.
pub record Crypto : Type 1 where
  pub Algorithm : Type 0
  pub PublicKey : Type 0
  pub match_path_in_list : String → List String → Bool
  pub hmac_base64 : Algorithm → (data_to_sign secret_key : String) → Option String
  pub parse_public_key : String → Option PublicKey
  pub verify_base64 : PublicKey → (data_to_sign signature : String) → Bool

pub data Failure : Type 0 where
  read_failed sign_failed mismatch : Failure

-- `Validate` of a validator, `none` for no error.
abbrev pub Validator : Type 0 → Type 0
Validator A = Request → Config A → Option Failure

-- What the middleware does with a request.
pub data Outcome (E : Type 0) : Type 0 where
  next_called : Outcome E
  invalid : Failure → Outcome E
  app_error : E → Outcome E

-- `buildSigningData`; a body that was skipped is nil, and adds nothing, as an empty one does.
unfoldable pub build_signing_data : RequestCommonMeta → String → Option String → String
build_signing_data m query_string body =
    let with_query =
      if str_eq query_string "" then m.timestamp else String.◌++◌ m.timestamp query_string in
    elim body [ none ↦ with_query | some text ↦ String.◌++◌ with_query text ]

unfoldable pub read_request_body : Request → Bool → Option (Option String)
read_request_body r skip_body =
    if skip_body then some none else elim r.body [ none ↦ none | some text ↦ some (some text) ]

unfoldable pub get_query_string : Request → Bool → String
get_query_string r skip_query = if skip_query then "" else r.raw_query

module _ (c : Crypto) where
  -- `Validate` of both validators up to the check of the signature: `check` is that, on the data.
  unfoldable pub validate : (String → Option Failure) → Validator c.Algorithm
  unfolding build_signing_data read_request_body get_query_string
  validate check r config =
      if config.enabled
      then (if c.match_path_in_list r.path config.ignore_paths
          then none
          else elim (read_request_body r config.skip_body) [
            | none ↦ some read_failed
            | some body ↦
                check (build_signing_data r.meta (get_query_string r config.skip_query) body)
          ])
      else none

  unfoldable pub check_hmac : Request → Config c.Algorithm → String → Option Failure
  check_hmac r config data_to_sign =
      elim (c.hmac_base64 config.algorithm data_to_sign config.secret_key) [
        | none ↦ some sign_failed
        | some expected_sign ↦ if str_eq expected_sign r.meta.signature then none else some mismatch
      ]

  unfoldable pub check_rsa : c.PublicKey → Request → String → Option Failure
  check_rsa key r data_to_sign =
      if c.verify_base64 key data_to_sign r.meta.signature then none else some mismatch

  -- `HMACValidator.Validate`
  unfoldable pub hmac_validator : Validator c.Algorithm
  unfolding validate check_hmac
  hmac_validator r config = validate (check_hmac r config) r config

  -- `RSAValidator.Validate`
  unfoldable pub rsa_validator : c.PublicKey → Validator c.Algorithm
  unfolding validate check_rsa
  rsa_validator key r config = validate (check_rsa key r) r config

  -- What `buildSignatureValidator` gives: a validator, nil, or an application error.
  pub data Built : Type 0 where
    built : Validator c.Algorithm → Built
    nothing : Built
    broken : Built

  build_rsa : String → Option c.PublicKey → Built
  build_rsa pem none = if str_eq pem "" then nothing else broken
  build_rsa pem (some key) = if str_eq pem "" then nothing else built (rsa_validator key)

  build_type : SignatureType → Config c.Algorithm → Built
  build_type rsa config = build_rsa config.public_key_pem (c.parse_public_key config.public_key_pem)
  build_type hmac config = built hmac_validator
  build_type unknown config = built hmac_validator

  unfoldable pub build_signature_validator : Option (Config c.Algorithm) → Built
  unfolding build_type build_rsa
  build_signature_validator none = nothing
  build_signature_validator (some config) =
      if config.enabled then build_type config.type config else nothing

  -- What `ResolveSignature` gives, if no error: nil, or a resolved signature.
  pub record ResolvedSignature : Type 0 where
    pub config : Option (Config c.Algorithm)
    pub validator : Option (Validator c.Algorithm)
    pub skip : Bool

  -- What a provider answers to a request, if there is a provider: an application error, or a result
  -- that may be nil.
  pub data Resolution (E : Type 0) : Type 0 where
    no_provider : Resolution E
    refused : E → Resolution E
    resolved : Option ResolvedSignature → Resolution E

  module _ {E : Type 0} where
    verdict : Validator c.Algorithm → Request → Config c.Algorithm → Outcome E
    verdict validator r config = elim (validator r config) [
      | none ↦ next_called
      | some failure ↦ invalid failure
    ]

    after_build : Built → Request → Config c.Algorithm → Outcome E
    unfolding verdict
    after_build (built validator) r config = verdict validator r config
    after_build nothing r config = next_called
    after_build broken r config = next_called

    -- `SignatureMiddleware`: a validator that cannot be built is logged, and nothing is checked.
    unfoldable pub signature_middleware : Config c.Algorithm → Request → Outcome E
    unfolding after_build
    signature_middleware config r =
        if config.enabled
        then after_build (build_signature_validator (some config)) r config
        else next_called

    -- An error of the builder, where it is answered: `internal` is made of it.
    built_or : E → Built → Request → Config c.Algorithm → Outcome E
    unfolding verdict
    built_or internal (built validator) r config = verdict validator r config
    built_or internal nothing r config = next_called
    built_or internal broken r config = app_error internal

    resolved_check : E → Option (Validator c.Algorithm) → Config c.Algorithm → Request → Outcome E
    unfolding verdict built_or
    resolved_check internal (some validator) config r =
        if config.enabled then verdict validator r config else next_called
    resolved_check internal none config r =
        if config.enabled
        then built_or internal (build_signature_validator (some config)) r config
        else next_called

    apply_resolved : E → Config c.Algorithm → ResolvedSignature → Request → Outcome E
    unfolding resolved_check
    apply_resolved internal config s r = if s.skip then next_called else elim s.config [
      | some own ↦ resolved_check internal s.validator own r
      | none ↦ resolved_check internal s.validator config r
    ]

    with_resolution : E → Config c.Algorithm → Resolution E → Request → Outcome E
    unfolding resolved_check apply_resolved
    with_resolution internal config no_provider r = resolved_check internal none config r
    with_resolution internal config (refused e) r = app_error e
    with_resolution internal config (resolved none) r = resolved_check internal none config r
    with_resolution internal config (resolved (some s)) r = apply_resolved internal config s r

    -- `SignatureMiddlewareWithProvider`
    unfoldable pub signature_middleware_with_provider :
        E → Config c.Algorithm → Resolution E → Request → Outcome E
    unfolding with_resolution
    signature_middleware_with_provider internal config resolution r =
        if config.enabled then with_resolution internal config resolution r else next_called

    -- `SignatureMiddlewareWithValidator`, by `staticSignatureProvider`.
    unfoldable pub static_resolution : Option (Validator c.Algorithm) → Resolution E
    static_resolution none =
        resolved (some (record { config = none; validator = none; skip = true }))
    static_resolution (some validator) =
        resolved (some (record { config = none; validator = some validator; skip = false }))

    unfoldable pub signature_middleware_with_validator :
        E → Config c.Algorithm → Option (Validator c.Algorithm) → Request → Outcome E
    unfolding static_resolution
    signature_middleware_with_validator internal config validator r =
        signature_middleware_with_provider internal config (static_resolution validator) r
