-- ===== src/Signing/Laws.antt =====
-- What the signature check of middleware/signature.go binds, and what it lets through.
use Prim.Native.String
use go_rpc_gateway.Prelude.{
  ◌≡◌, ◌≢◌, ◌⊎◌, ◌↔◌, inl, inr, refl, true, false, Option, none, some, String, str_eq, eq_iff,
  Bool-cases, Option-cases, arith, ap, ◌∙◌, sym,
}
use go_rpc_gateway.RequestContext.Fields.{RequestCommonMeta}
use go_rpc_gateway.Signing.{
  rsa, Config, Request, Crypto, Failure, read_failed, next_called, build_signing_data,
  read_request_body, get_query_string, check_hmac, hmac_validator, build_signature_validator,
  signature_middleware,
}
use text.Mathlib.TextLemmas.{append_assoc, append-nil, nil-append}

infixr 65 ◌^◌
abbrev pub ◌^◌ : String → String → String
a ^ b = String.◌++◌ a b

abbrev body_text : Option String → String
body_text none = ""
body_text (some text) = text

-- The text that a signature covers: the timestamp, the query and the body, with nothing between
-- them; nothing if the body cannot be read.
abbrev pub covered : {A : Type 0} → Config A → Request → Option String
covered config r = elim (read_request_body r config.skip_body) [
  | none ↦ none
  | some body ↦ some (r.meta.timestamp ^ (get_query_string r config.skip_query ^ body_text body))
]

signing_data :
    (m : RequestCommonMeta) (query : String) (body : Option String)
    → build_signing_data m query body ≡ m.timestamp ^ (query ^ body_text body)
unfolding build_signing_data
signing_data m query none = elim (Bool-cases (str_eq query "")) [
  | inl no_query ↦ rw no_query (
      sym (append-nil m.timestamp)
      ∙ ap (λ q. m.timestamp ^ (q ^ "")) (sym ((eq_iff query "").0 no_query)))
  | inr has_query ↦ rw has_query (ap (λ q. m.timestamp ^ q) (sym (append-nil query)))
]
signing_data m query (some text) = elim (Bool-cases (str_eq query "")) [
  | inl no_query ↦ rw no_query (
      ap (λ q. m.timestamp ^ q) (sym (nil-append text))
      ∙ ap (λ q. m.timestamp ^ (q ^ text)) (sym ((eq_iff query "").0 no_query)))
  | inr has_query ↦ rw has_query (append_assoc m.timestamp query text)
]

module _ (c : Crypto) (config : Config c.Algorithm) where
  -- The validator, by the text that is covered.
  abbrev by_text : Request → Option String → Option Failure
  by_text r none = some read_failed
  by_text r (some text) = check_hmac c r config text

  hmac_validator_lem :
      (r : Request)
      → config.enabled ≡ true
      → c.match_path_in_list r.path config.ignore_paths ≡ false
      → hmac_validator c r config ≡ by_text r (covered config r)
  unfolding hmac_validator
  hmac_validator_lem r on checked = elim (Option-cases (read_request_body r config.skip_body)) [
    | inl unread ↦ ground (arith, on, checked, unread)
    | inr (body, read) ↦
        ground (
          arith,
          on,
          checked,
          read,
          signing_data r.meta (get_query_string r config.skip_query) body,
        )
  ]

  middleware_verdict :
      {E : Type 0} (r : Request)
      → config.enabled ≡ true
      → config.type ≢ rsa
      → (signature_middleware c {E = E} config r ≡ next_called) ↔ (hmac_validator c r config ≡ none)
  unfolding signature_middleware build_signature_validator
  middleware_verdict r on kind = ground (arith, on, kind)

  ignored_passes :
      (r : Request)
      → c.match_path_in_list r.path config.ignore_paths ≡ true
      → hmac_validator c r config ≡ none
  unfolding hmac_validator
  ignored_passes r h = ground (arith, h)

  -- A request whose body was read and whose signature is the one of the covered text.
  abbrev pub IsSigned : Request → Type 0
  IsSigned r =
      (text : String) × (covered config r ≡ some text)
      × (c.hmac_base64 config.algorithm text config.secret_key ≡ some r.meta.signature)

  signed_passes :
      (r : Request) (text : String)
      → c.hmac_base64 config.algorithm text config.secret_key ≡ some r.meta.signature
      → by_text r (some text) ≡ none
  unfolding check_hmac
  signed_passes r text h = ground (arith, h, eq_iff r.meta.signature r.meta.signature)

  check_signed :
      (r : Request) (text : String)
      → by_text r (some text) ≡ none
      → c.hmac_base64 config.algorithm text config.secret_key ≡ some r.meta.signature
  unfolding check_hmac
  check_signed r text h =
      elim (Option-cases (c.hmac_base64 config.algorithm text config.secret_key)) [
        | inl unsigned ↦ absurd (ground (arith, unsigned, h))
        | inr (expected, made) ↦ ground (arith, made, h, eq_iff expected r.meta.signature)
      ]

  check-IsSigned :
      (r : Request) (o : Option String) → covered config r ≡ o → by_text r o ≡ none → IsSigned r
  check-IsSigned r none e h = absurd (ground arith)
  check-IsSigned r (some text) e h = (text, e, check_signed r text h)

  -- With the check on, a configuration that is not of the RSA type lets a request through exactly
  -- when its path is ignored, or its body was read and its signature is the one that the secret key
  -- gives for the covered text.
  pub signature_middleware-next_iff :
      {E : Type 0} (r : Request)
      → config.enabled ≡ true
      → config.type ≢ rsa
      → (signature_middleware c {E = E} config r ≡ next_called)
        ↔ ((c.match_path_in_list r.path config.ignore_paths ≡ true) ⊎ IsSigned r)
  signature_middleware-next_iff {E} r on kind =
      let verdict = middleware_verdict {E = E} r on kind in
      (
        λ h. elim (Bool-cases (c.match_path_in_list r.path config.ignore_paths)) [
          | inl ignored ↦ inl ignored
          | inr checked ↦ inr (
              check-IsSigned r (covered config r) refl
                (sym (hmac_validator_lem r on checked) ∙ verdict.0 h))
        ],
        λ h. verdict.1 (elim (Bool-cases (c.match_path_in_list r.path config.ignore_paths)) [
          | inl ignored ↦ ignored_passes r ignored
          | inr checked ↦ elim h [
            | inl ignored ↦ absurd (ground (arith, ignored, checked))
            | inr (text, same, made) ↦
                hmac_validator_lem r on checked ∙ ap (by_text r) same ∙ signed_passes r text made
          ]
        ]),
      )

  -- The signature does not say where the query ends and the body begins: with both covered, a piece
  -- of text that is moved from the end of the query to the front of the body leaves the verdict of
  -- the HMAC validator as it was.
  pub hmac_validator_moved :
      (r : Request) (query piece text : String)
      → config.skip_query ≡ false
      → config.skip_body ≡ false
      → hmac_validator c (record r { raw_query = query ^ piece; body = some text }) config
        ≡ hmac_validator c (record r { raw_query = query; body = some (piece ^ text) }) config
  unfolding hmac_validator get_query_string read_request_body
  hmac_validator_moved r query piece text with_query with_body = ground (
    arith,
    with_query,
    with_body,
    signing_data r.meta (query ^ piece) (some text),
    signing_data r.meta query (some (piece ^ text)),
    append_assoc query piece text,
  )
