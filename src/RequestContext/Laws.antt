-- ===== src/RequestContext/Laws.antt =====
-- What a `With` function of middleware/request_context.go changes, and for whom.
use go_rpc_gateway.Prelude.{
  eq_iff, ℕ, ◌≡◌, ◌<◌, refl, some, length, get_elem?, get_elem?-modify, get_elem?-ne-none, String,
  if◌then◌else◌, arith, inl, inr, Option-cases,
}
use go_rpc_gateway.RequestContext.Fields.{
  RequestCommonMeta, Field, id, trace_id, request_id, user_id, user_name, domain, role_code,
  tenant_id, tenant_code, session_id, timezone, timestamp, signature, authorization, access_key,
  app_id, device_id, app_version, ip_address, platform_id, platform_code, region_id, region_code,
  agent_line_id, nonce, jti, family_id, x_ns_id, user_agent, push_token, token, accept_language,
  forwarded_host, field, set_field, metadata_key, same_key,
}
use go_rpc_gateway.RequestContext.Context.{
  Contextx, Context, World, from_values, get_request_common_meta, with_value,
  update_request_common_meta_field,
}
use go_rpc_gateway.RequestContext.Setters.{
  with_id, with_trace_id, with_request_id, with_user_id, with_user_name, with_domain,
  with_role_code, with_tenant_id, with_tenant_code, with_session_id, with_timezone, with_timestamp,
  with_signature, with_authorization, with_access_key, with_app_id, with_device_id,
  with_app_version, with_ip_address, with_platform_id, with_platform_code, with_region_id,
  with_region_code, with_agent_line_id, with_nonce, with_jti, with_family_id, with_x_ns_id,
  with_user_agent, with_push_token, with_token, with_accept_language, with_forwarded_host,
}

field-set_field :
    (f g : Field) (v : String) (m : RequestCommonMeta)
    → field g (set_field f v m) ≡ (if same_key f g then v else field g m)
field-set_field id id v m = refl
field-set_field id _ v m = refl
field-set_field trace_id id v m = refl
field-set_field trace_id _ v m = refl
field-set_field request_id id v m = refl
field-set_field request_id _ v m = refl
field-set_field user_id id v m = refl
field-set_field user_id _ v m = refl
field-set_field user_name id v m = refl
field-set_field user_name _ v m = refl
field-set_field domain id v m = refl
field-set_field domain _ v m = refl
field-set_field role_code id v m = refl
field-set_field role_code _ v m = refl
field-set_field tenant_id id v m = refl
field-set_field tenant_id _ v m = refl
field-set_field tenant_code id v m = refl
field-set_field tenant_code _ v m = refl
field-set_field session_id id v m = refl
field-set_field session_id _ v m = refl
field-set_field timezone id v m = refl
field-set_field timezone _ v m = refl
field-set_field timestamp id v m = refl
field-set_field timestamp _ v m = refl
field-set_field signature id v m = refl
field-set_field signature _ v m = refl
field-set_field authorization id v m = refl
field-set_field authorization _ v m = refl
field-set_field access_key id v m = refl
field-set_field access_key _ v m = refl
field-set_field app_id id v m = refl
field-set_field app_id _ v m = refl
field-set_field device_id id v m = refl
field-set_field device_id _ v m = refl
field-set_field app_version id v m = refl
field-set_field app_version _ v m = refl
field-set_field ip_address id v m = refl
field-set_field ip_address _ v m = refl
field-set_field platform_id id v m = refl
field-set_field platform_id _ v m = refl
field-set_field platform_code id v m = refl
field-set_field platform_code _ v m = refl
field-set_field region_id id v m = refl
field-set_field region_id _ v m = refl
field-set_field region_code id v m = refl
field-set_field region_code _ v m = refl
field-set_field agent_line_id id v m = refl
field-set_field agent_line_id _ v m = refl
field-set_field nonce id v m = refl
field-set_field nonce _ v m = refl
field-set_field jti id v m = refl
field-set_field jti _ v m = refl
field-set_field family_id id v m = refl
field-set_field family_id _ v m = refl
field-set_field x_ns_id id v m = refl
field-set_field x_ns_id _ v m = refl
field-set_field user_agent id v m = refl
field-set_field user_agent _ v m = refl
field-set_field push_token id v m = refl
field-set_field push_token _ v m = refl
field-set_field token id v m = refl
field-set_field token _ v m = refl
field-set_field accept_language id v m = refl
field-set_field accept_language _ v m = refl
field-set_field forwarded_host id v m = refl
field-set_field forwarded_host _ v m = refl

module _ (x : Contextx) where
  -- The `With` function of each field.
  abbrev pub setter : Field → String → World x.Values → World x.Values
  setter id v w = with_id x v w
  setter trace_id v w = with_trace_id x v w
  setter request_id v w = with_request_id x v w
  setter user_id v w = with_user_id x v w
  setter user_name v w = with_user_name x v w
  setter domain v w = with_domain x v w
  setter role_code v w = with_role_code x v w
  setter tenant_id v w = with_tenant_id x v w
  setter tenant_code v w = with_tenant_code x v w
  setter session_id v w = with_session_id x v w
  setter timezone v w = with_timezone x v w
  setter timestamp v w = with_timestamp x v w
  setter signature v w = with_signature x v w
  setter authorization v w = with_authorization x v w
  setter access_key v w = with_access_key x v w
  setter app_id v w = with_app_id x v w
  setter device_id v w = with_device_id x v w
  setter app_version v w = with_app_version x v w
  setter ip_address v w = with_ip_address x v w
  setter platform_id v w = with_platform_id x v w
  setter platform_code v w = with_platform_code x v w
  setter region_id v w = with_region_id x v w
  setter region_code v w = with_region_code x v w
  setter agent_line_id v w = with_agent_line_id x v w
  setter nonce v w = with_nonce x v w
  setter jti v w = with_jti x v w
  setter family_id v w = with_family_id x v w
  setter x_ns_id v w = with_x_ns_id x v w
  setter user_agent v w = with_user_agent x v w
  setter push_token v w = with_push_token x v w
  setter token v w = with_token x v w
  setter accept_language v w = with_accept_language x v w
  setter forwarded_host v w = with_forwarded_host x v w

  with_field : Field → String → World x.Values → World x.Values
  with_field f v w = update_request_common_meta_field x (set_field f v) (with_value x f v w)

  setter_lem : (f : Field) (v : String) (w : World x.Values) → setter f v w ≡ with_field f v w
  unfolding with_field with_id with_trace_id with_request_id with_user_id with_user_name with_domain
      with_role_code with_tenant_id with_tenant_code with_session_id with_timezone with_timestamp
      with_signature with_authorization with_access_key with_app_id with_device_id with_app_version
      with_ip_address with_platform_id with_platform_code with_region_id with_region_code
      with_agent_line_id with_nonce with_jti with_family_id with_x_ns_id with_user_agent
      with_push_token with_token with_accept_language with_forwarded_host
  setter_lem id v w = refl
  setter_lem _ v w = refl

  field-from_values :
      (f : Field) (w : World x.Values)
      → field f (from_values x w) ≡ x.get_value (metadata_key f) w.ctx.values
  unfolding from_values
  field-from_values id w = refl
  field-from_values _ w = refl

  -- What the context `c` yields, after a change of the struct that the context at hand points to.
  seen_by :
      (f g : Field) (v : String) (c : Context x.Values) (w : World x.Values) (p : ℕ)
      → w.ctx.meta ≡ some p
      → p < length w.metas
      → c.meta ≡ some p
      → field g (get_request_common_meta x (record { metas = (with_field f v w).metas; ctx = c }))
        ≡ (if same_key f g
            then v
            else field g (get_request_common_meta x (record { metas = w.metas; ctx = c })))
  unfolding with_field update_request_common_meta_field get_request_common_meta
  seen_by f g v c w p here live shared = elim (Option-cases (get_elem? w.metas p)) [
    | inl dead ↦ absurd (get_elem?-ne-none w.metas p live dead)
    | inr (m, found) ↦ ground (
      arith,
      here,
      shared,
      found,
      get_elem?-modify (set_field f v) w.metas p p,
      field-set_field f g v m,
    )
  ]

  seen_again :
      (f g : Field) (v : String) (w : World x.Values)
      → field g (get_request_common_meta x (with_field f v w))
        ≡ (if same_key f g then v else field g (get_request_common_meta x w))
  unfolding with_field update_request_common_meta_field get_request_common_meta
  seen_again f g v w =
      let values = x.get_value-with_value (metadata_key f) (metadata_key g) v w.ctx.values in
      elim (Option-cases w.ctx.meta) [
        | inl none_here ↦ ground (
          arith,
          none_here,
          values,
          field-from_values g w,
          field-from_values g (with_value x f v w),
        )
        | inr (p, here) ↦ elim (Option-cases (get_elem? w.metas p)) [
          | inl dead ↦ ground (
            arith,
            here,
            dead,
            values,
            get_elem?-modify (set_field f v) w.metas p p,
            field-from_values g w,
            field-from_values g (with_field f v w),
          )
          | inr (m, found) ↦ ground (
            arith,
            here,
            found,
            get_elem?-modify (set_field f v) w.metas p p,
            field-set_field f g v m,
          )
        ]
      ]

  -- After the `With` function of any field, `GetRequestCommonMeta` yields the new value of that
  -- field and the old value of every other, whether or not the context has a struct.
  pub field-setter :
      (f g : Field) (v : String) (w : World x.Values)
      → field g (get_request_common_meta x (setter f v w))
        ≡ (if same_key f g then v else field g (get_request_common_meta x w))
  field-setter f g v w = rw (setter_lem f v w) (seen_again f g v w)

  -- A `With` function changes what other contexts yield: where the context at hand and another one
  -- point to the same struct, as a context and one derived from it do, the other yields the new
  -- value of the field too.
  pub field-setter_shared :
      (f : Field) (v : String) (c : Context x.Values) (w : World x.Values) (p : ℕ)
      → w.ctx.meta ≡ some p
      → c.meta ≡ some p
      → p < length w.metas
      → field f (get_request_common_meta x (record { metas = (setter f v w).metas; ctx = c })) ≡ v
  field-setter_shared f v c w p here shared live = rw (setter_lem f v w) (
      ground
        (arith, seen_by f f v c w p here live shared, eq_iff (metadata_key f) (metadata_key f)))
