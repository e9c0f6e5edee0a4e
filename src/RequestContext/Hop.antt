-- ===== src/RequestContext/Hop.antt =====
-- A call from one service to another: the client's side of middleware/request_context.go, then the
-- server's. The metadata arrive as they were sent.
use go_rpc_gateway.Prelude.{
  ◌≡◌, refl, sym, true, Option, none, some, List, [], ◌∷◌, ◌++◌, all, get_elem?-append-length,
  String, str_eq, if◌then◌else◌, arith, ap, ◌∙◌,
}
use go_rpc_gateway.RequestContext.Fields.{
  RequestCommonMeta, Field, id, trace_id, request_id, user_id, user_name, domain, role_code,
  tenant_id, tenant_code, session_id, timezone, timestamp, signature, authorization, access_key,
  app_id, device_id, app_version, ip_address, platform_id, platform_code, region_id, region_code,
  agent_line_id, nonce, jti, family_id, x_ns_id, user_agent, push_token, token, accept_language,
  forwarded_host, field, metadata_key,
}
use go_rpc_gateway.RequestContext.Context.{
  Contextx, World, get_request_common_meta, with_request_common_meta,
}
use go_rpc_gateway.RequestContext.Metadata.{
  Transport, Library, is_lower, collect, first, first_metadata_value, incoming_meta, outgoing_pairs,
  enrich_context_from_metadata, inject_trace_to_outgoing_context, extract_or_generate_trace_id,
  extract_or_generate_request_id,
}

pub stored :
    (x : Contextx) (m : RequestCommonMeta) (w : World x.Values)
    → get_request_common_meta x (with_request_common_meta x m w) ≡ m
unfolding get_request_common_meta with_request_common_meta
stored x m w = rw (get_request_common_meta, get_elem?-append-length w.metas m) refl

abbrev pub generated : Option String → String → String
generated none fresh = fresh
generated (some trace) fresh = trace

-- What a field is after a hop, of what it was before: `trace`, `request` and `language` stand for
-- the values that replace empty ones. The forwarded host is not sent.
abbrev pub arrives : Field → String → String → String → RequestCommonMeta → String
arrives id trace request language m = m.id
arrives trace_id trace request language m = if str_eq m.trace_id "" then trace else m.trace_id
arrives request_id trace request language m =
    if str_eq m.request_id "" then request else m.request_id
arrives user_id trace request language m = m.user_id
arrives user_name trace request language m = m.user_name
arrives domain trace request language m = m.domain
arrives role_code trace request language m = m.role_code
arrives tenant_id trace request language m = m.tenant_id
arrives tenant_code trace request language m = m.tenant_code
arrives session_id trace request language m = m.session_id
arrives timezone trace request language m = m.timezone
arrives timestamp trace request language m = m.timestamp
arrives signature trace request language m = m.signature
arrives authorization trace request language m = m.authorization
arrives access_key trace request language m = m.access_key
arrives app_id trace request language m = m.app_id
arrives device_id trace request language m = m.device_id
arrives app_version trace request language m = m.app_version
arrives ip_address trace request language m = m.ip_address
arrives platform_id trace request language m = m.platform_id
arrives platform_code trace request language m = m.platform_code
arrives region_id trace request language m = m.region_id
arrives region_code trace request language m = m.region_code
arrives agent_line_id trace request language m = m.agent_line_id
arrives nonce trace request language m = m.nonce
arrives jti trace request language m = m.jti
arrives family_id trace request language m = m.family_id
arrives x_ns_id trace request language m = m.x_ns_id
arrives user_agent trace request language m = m.user_agent
arrives push_token trace request language m = m.push_token
arrives token trace request language m = m.token
arrives accept_language trace request language m =
    if str_eq m.accept_language "" then language else m.accept_language
arrives forwarded_host trace request language m = ""

module _ (t : Transport) (l : Library) where
  outgoing_lower :
      (language : String) (m : RequestCommonMeta)
      → all (λ kv. is_lower kv.0) (outgoing_pairs t l language m) ≡ true
  unfolding outgoing_pairs
  outgoing_lower language m = refl

  key_lower : (f : Field) → is_lower (metadata_key f) ≡ true
  key_lower id = refl
  key_lower _ = refl

  -- What the server finds under the key of a field.
  abbrev sent : Field → String → RequestCommonMeta → String
  sent f language m = first (collect (metadata_key f) (outgoing_pairs t l language m))

  first-pairs :
      (f : Field) (language : String) (m : RequestCommonMeta)
      → first_metadata_value t (t.pairs (outgoing_pairs t l language m)) (metadata_key f)
        ≡ sent f language m
  first-pairs f language m = ap first (
      t.get-pairs (metadata_key f) (outgoing_pairs t l language m) (key_lower f)
        (outgoing_lower language m))

  -- A field of the struct that the server stores, from what it finds in the metadata.
  abbrev received : Field → String → String → t.Md → String
  received trace_id trace request md = trace
  received request_id trace request md = request
  received user_name trace request md =
      l.query_unescape (first_metadata_value t md (metadata_key user_name))
  received f trace request md = first_metadata_value t md (metadata_key f)

  field-incoming_meta :
      (f : Field) (trace request : String) (md : t.Md)
      → field f (incoming_meta t l trace request md) ≡ received f trace request md
  unfolding incoming_meta
  field-incoming_meta id trace request md = refl
  field-incoming_meta _ trace request md = refl

  -- The text under each key.
  abbrev text : Field → String → RequestCommonMeta → String
  text user_name language m = l.query_escape m.user_name
  text accept_language language m = l.if_empty m.accept_language language
  text forwarded_host language m = ""
  text f language m = field f m

  sent_lem :
      (f : Field) (language : String) (m : RequestCommonMeta)
      → sent f language m ≡ text f language m
  unfolding outgoing_pairs collect
  sent_lem id language m = refl
  sent_lem _ language m = refl

  read_back :
      (f : Field) (language : String) (m : RequestCommonMeta)
      → first_metadata_value t (t.pairs (outgoing_pairs t l language m)) (metadata_key f)
        ≡ text f language m
  read_back f language m = first-pairs f language m ∙ sent_lem f language m

  -- The server's struct, for metadata that a client's struct was made into.
  meta_of : Option String → String → String → String → RequestCommonMeta → RequestCommonMeta
  meta_of span fresh_trace fresh_request language m =
      let md = t.pairs (outgoing_pairs t l language m) in
      incoming_meta t l
        (extract_or_generate_trace_id span fresh_trace
          (first_metadata_value t md (metadata_key trace_id)))
        (extract_or_generate_request_id fresh_request
          (first_metadata_value t md (metadata_key request_id)))
        md

  received_lem :
      (f : Field) (span : Option String) (fresh_trace fresh_request language : String)
      (m : RequestCommonMeta)
      → received f
          (extract_or_generate_trace_id span fresh_trace m.trace_id)
          (extract_or_generate_request_id fresh_request m.request_id)
          (t.pairs (outgoing_pairs t l language m))
        ≡ arrives f (generated span fresh_trace) fresh_request language m
  unfolding extract_or_generate_trace_id extract_or_generate_request_id
  received_lem trace_id span fresh_trace fresh_request language m = ground arith
  received_lem request_id span fresh_trace fresh_request language m = ground arith
  received_lem user_name span fresh_trace fresh_request language m =
      ap l.query_unescape (read_back user_name language m)
      ∙ l.query_unescape-query_escape m.user_name
  received_lem accept_language span fresh_trace fresh_request language m =
      read_back accept_language language m ∙ l.if_empty_lem m.accept_language language
  received_lem id span fresh_trace fresh_request language m = read_back id language m
  received_lem user_id span fresh_trace fresh_request language m = read_back user_id language m
  received_lem domain span fresh_trace fresh_request language m = read_back domain language m
  received_lem role_code span fresh_trace fresh_request language m = read_back role_code language m
  received_lem tenant_id span fresh_trace fresh_request language m = read_back tenant_id language m
  received_lem tenant_code span fresh_trace fresh_request language m =
      read_back tenant_code language m
  received_lem session_id span fresh_trace fresh_request language m =
      read_back session_id language m
  received_lem timezone span fresh_trace fresh_request language m = read_back timezone language m
  received_lem timestamp span fresh_trace fresh_request language m = read_back timestamp language m
  received_lem signature span fresh_trace fresh_request language m = read_back signature language m
  received_lem authorization span fresh_trace fresh_request language m =
      read_back authorization language m
  received_lem access_key span fresh_trace fresh_request language m =
      read_back access_key language m
  received_lem app_id span fresh_trace fresh_request language m = read_back app_id language m
  received_lem device_id span fresh_trace fresh_request language m = read_back device_id language m
  received_lem app_version span fresh_trace fresh_request language m =
      read_back app_version language m
  received_lem ip_address span fresh_trace fresh_request language m =
      read_back ip_address language m
  received_lem platform_id span fresh_trace fresh_request language m =
      read_back platform_id language m
  received_lem platform_code span fresh_trace fresh_request language m =
      read_back platform_code language m
  received_lem region_id span fresh_trace fresh_request language m = read_back region_id language m
  received_lem region_code span fresh_trace fresh_request language m =
      read_back region_code language m
  received_lem agent_line_id span fresh_trace fresh_request language m =
      read_back agent_line_id language m
  received_lem nonce span fresh_trace fresh_request language m = read_back nonce language m
  received_lem jti span fresh_trace fresh_request language m = read_back jti language m
  received_lem family_id span fresh_trace fresh_request language m = read_back family_id language m
  received_lem x_ns_id span fresh_trace fresh_request language m = read_back x_ns_id language m
  received_lem user_agent span fresh_trace fresh_request language m =
      read_back user_agent language m
  received_lem push_token span fresh_trace fresh_request language m =
      read_back push_token language m
  received_lem token span fresh_trace fresh_request language m = read_back token language m
  received_lem forwarded_host span fresh_trace fresh_request language m =
      read_back forwarded_host language m

  field-meta_of :
      (f : Field) (span : Option String) (fresh_trace fresh_request language : String)
      (m : RequestCommonMeta)
      → field f (meta_of span fresh_trace fresh_request language m)
        ≡ arrives f (generated span fresh_trace) fresh_request language m
  unfolding meta_of
  field-meta_of f span fresh_trace fresh_request language m =
      field-incoming_meta f _ _ _
      ∙ rw (read_back trace_id language m, read_back request_id language m)
          (received_lem f span fresh_trace fresh_request language m)

module _ (x : Contextx) (t : Transport) (l : Library) where
  enrich_lem :
      (span : Option String) (fresh_trace fresh_request : String) (md : t.Md) (w : World x.Values)
      → get_request_common_meta x
          (enrich_context_from_metadata x t l span fresh_trace fresh_request md w)
        ≡ incoming_meta t l
            (extract_or_generate_trace_id span fresh_trace
              (first_metadata_value t md (metadata_key trace_id)))
            (extract_or_generate_request_id fresh_request
              (first_metadata_value t md (metadata_key request_id)))
            md
  unfolding enrich_context_from_metadata
  enrich_lem span fresh_trace fresh_request md w = stored x _ _

  -- A client's call carries every field of its request to the server: there each field is what it
  -- was, an empty trace or request id is generated, an empty language is that of the client's i18n
  -- context, and the forwarded host, which the client does not send, is empty. The client sends no
  -- metadata of its own.
  pub field-hop :
      (f : Field) (span : Option String) (fresh_trace fresh_request language : String)
      (client server : World x.Values)
      → field f (
          get_request_common_meta x (
            enrich_context_from_metadata x t l span fresh_trace fresh_request
              (inject_trace_to_outgoing_context x t l language none client)
              server))
        ≡ arrives f
            (generated span fresh_trace)
            fresh_request
            language
            (get_request_common_meta x client)
  unfolding inject_trace_to_outgoing_context meta_of
  field-hop f span fresh_trace fresh_request language client server =
      ap (field f) (enrich_lem span fresh_trace fresh_request _ server)
      ∙ field-meta_of t l f span fresh_trace fresh_request language
          (get_request_common_meta x client)

  -- What the server makes of the text that it finds under the key of a field.
  abbrev pub taken : Field → String → String
  taken user_name value = l.query_unescape value
  taken f value = value

  -- What the server makes of the text that it finds under the key of a field; `trace` and `request`
  -- replace ids that are empty.
  abbrev pub settled : Field → (trace request value : String) → String
  settled trace_id trace request value = if str_eq value "" then trace else value
  settled request_id trace request value = if str_eq value "" then request else value
  settled f trace request value = taken f value

  received-settled :
      (f : Field) (span : Option String) (fresh_trace fresh_request : String) (md : t.Md)
      → received t l f
          (extract_or_generate_trace_id span fresh_trace
            (first_metadata_value t md (metadata_key trace_id)))
          (extract_or_generate_request_id fresh_request
            (first_metadata_value t md (metadata_key request_id)))
          md
        ≡ settled f
            (generated span fresh_trace)
            fresh_request
            (first_metadata_value t md (metadata_key f))
  unfolding extract_or_generate_trace_id extract_or_generate_request_id
  received-settled trace_id none fresh_trace fresh_request md = refl
  received-settled trace_id (some own) fresh_trace fresh_request md = refl
  received-settled _ span fresh_trace fresh_request md = refl

  enriched_settled :
      (f : Field) (span : Option String) (fresh_trace fresh_request : String) (md : t.Md)
      (server : World x.Values)
      → field f (
          get_request_common_meta x
            (enrich_context_from_metadata x t l span fresh_trace fresh_request md server))
        ≡ settled f
            (generated span fresh_trace)
            fresh_request
            (first_metadata_value t md (metadata_key f))
  enriched_settled f span fresh_trace fresh_request md server =
      ap (field f) (enrich_lem span fresh_trace fresh_request md server)
      ∙ field-incoming_meta t l f _ _ _
      ∙ received-settled f span fresh_trace fresh_request md

  -- What the server gets of a field, from the values that the client's outgoing metadata have under
  -- its key already: their first, or what the client's context holds.
  abbrev pub first_of : Field → List String → (trace request held : String) → String
  first_of f [] trace request held = held
  first_of f (value ∷ values) trace request held = settled f trace request value

  -- A client's call with metadata that are there already carries every field under whose key they
  -- hold nothing as a call without, and of any other field their first value.
  pub field-hop_joined :
      (f : Field) (span : Option String) (fresh_trace fresh_request language : String)
      (values : List String) (old : t.Md) (client server : World x.Values)
      → t.get old (metadata_key f) ≡ values
      → field f (
          get_request_common_meta x (
            enrich_context_from_metadata x t l span fresh_trace fresh_request
              (inject_trace_to_outgoing_context x t l language (some old) client)
              server))
        ≡ first_of f values (generated span fresh_trace) fresh_request (
            arrives f
              (generated span fresh_trace)
              fresh_request
              language
              (get_request_common_meta x client))
  unfolding inject_trace_to_outgoing_context
  field-hop_joined f span fresh_trace fresh_request language [] old client server bare =
      let md = t.pairs (outgoing_pairs t l language (get_request_common_meta x client)) in
      enriched_settled f span fresh_trace fresh_request (t.join old md) server
      ∙ ap (λ vs. settled f (generated span fresh_trace) fresh_request (first vs))
          (t.get-join (metadata_key f) old md ∙ ap (λ vs. vs ++ t.get md (metadata_key f)) bare)
      ∙ sym (enriched_settled f span fresh_trace fresh_request md server)
      ∙ field-hop f span fresh_trace fresh_request language client server
  field-hop_joined f span fresh_trace fresh_request language (value ∷ values) old client server
        has =
      let md = t.pairs (outgoing_pairs t l language (get_request_common_meta x client)) in
      enriched_settled f span fresh_trace fresh_request (t.join old md) server
      ∙ ap (λ vs. settled f (generated span fresh_trace) fresh_request (first vs))
          (t.get-join (metadata_key f) old md ∙ ap (λ vs. vs ++ t.get md (metadata_key f)) has)
