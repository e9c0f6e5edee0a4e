-- ===== src/Tests/SigningTests.antt =====
-- The signature check (middleware/signature.go).
use Prim.Native.String
use go_rpc_gateway.Prelude.{
  ℕ, ◌≡◌, ◌≢◌, ◌⊎◌, ◌↔◌, refl, true, false, Option, none, some, [], String, eq_iff, arith,
}
use go_rpc_gateway.Prelude.Int.{pos}
use go_rpc_gateway.Signing
use go_rpc_gateway.Signing.{
  SignatureType, hmac, rsa, Config, Request, Crypto, next_called, app_error, no_provider,
  hmac_validator, signature_middleware, signature_middleware_with_provider,
}
use go_rpc_gateway.Signing.Laws.{IsSigned, signature_middleware-next_iff}
use go_rpc_gateway.Signing.Replays.{with_nonce, hmac_validator_new_nonce}
use go_rpc_gateway.Replay.Timestamp.{Signature, Library}
use go_rpc_gateway.Replay.Nonce.{Redis, nonce_middleware}
use go_rpc_gateway.Replay.Nonce
use go_rpc_gateway.Tests.ReplayTests.{server}

-- A signer that appends the key to the text, and keys that no text is.
abbrev crypto : Crypto
crypto = record {
  Algorithm = ℕ;
  PublicKey = ℕ;
  match_path_in_list = λ path paths. false;
  hmac_base64 = λ algorithm text key. some (String.◌++◌ text key);
  parse_public_key = λ pem. none;
  verify_base64 = λ key text signature. false;
}

abbrev config : SignatureType → Config ℕ
config type = record {
  enabled = true;
  type = type;
  ignore_paths = [];
  skip_body = false;
  skip_query = false;
  secret_key = "key";
  algorithm = 0;
  public_key_pem = "pem";
}

-- A request with an empty struct but for the values that the check reads.
abbrev signed : Request
signed = record {
  path = "/pay";
  meta = record {
    id = "";
    trace_id = "";
    request_id = "";
    user_id = "";
    user_name = "";
    domain = "";
    role_code = "";
    tenant_id = "";
    tenant_code = "";
    session_id = "";
    timezone = "";
    timestamp = "1700000000";
    signature = "1700000000a=1bodykey";
    authorization = "";
    access_key = "";
    app_id = "";
    device_id = "";
    app_version = "";
    ip_address = "";
    platform_id = "";
    platform_code = "";
    region_id = "";
    region_code = "";
    agent_line_id = "";
    nonce = "n1";
    jti = "";
    family_id = "";
    x_ns_id = "";
    user_agent = "";
    push_token = "";
    token = "";
    accept_language = "";
    forwarded_host = "";
  };
  raw_query = "a=1";
  body = some "body";
}

hmac_is_not_rsa : ◌≢◌ {A = SignatureType} hmac rsa
hmac_is_not_rsa = ground arith

signature_middleware-next_iff_example :
    (signature_middleware crypto {E = ℕ} (config hmac) signed ≡ next_called)
    ↔ ((false ≡ true) ⊎ IsSigned crypto (config hmac) signed)
signature_middleware-next_iff_example =
    signature_middleware-next_iff crypto (config hmac) {E = ℕ} signed refl hmac_is_not_rsa

passes : hmac_validator crypto signed (config hmac) ≡ none
unfolding hmac_validator Signing.validate Signing.check_hmac Signing.build_signing_data
    Signing.read_request_body Signing.get_query_string
passes = refl

abbrev pem : String
pem = "pem"

pem_present : pem ≢ ""
pem_present = ground (arith, eq_iff pem "")

abbrev replay_check : Signature
replay_check = record {
  enabled = true;
  require_timestamp = true;
  require_nonce = true;
  ignore_paths = [];
  timeout_window = pos 300000000000;
  nonce_key_prefix = "nonce:";
  nonce_ttl = pos 300000000000;
}

abbrev replay_library : Library
replay_library = record { match_path_in_list = λ path paths. false; parse_int = λ text. none }

abbrev second_nonce : String
second_nonce = "n2"

second_present : second_nonce ≢ ""
second_present = ground (arith, eq_iff second_nonce "")

counted : ◌≢◌ {A = Option ℕ} (some 1) none
counted = ground arith

abbrev nothing_counted : String → ℕ
nothing_counted key = 0

hmac_validator_new_nonce_example :
    (hmac_validator crypto
        (with_nonce crypto (config hmac) server second_nonce signed)
        (config hmac)
      ≡ none)
    × ((nonce_middleware server replay_library replay_check true "/pay" second_nonce
          nothing_counted).1
        ≡ Nonce.next_called)
hmac_validator_new_nonce_example =
    hmac_validator_new_nonce crypto (config hmac) server signed replay_library replay_check
      second_nonce nothing_counted passes refl refl refl second_present refl counted refl
