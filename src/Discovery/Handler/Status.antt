-- ===== src/Discovery/Handler/Status.antt =====
-- cpool/grpc/auto_register.go: when the response of a route's handler says that all went well.
use go_rpc_gateway.Prelude.{
  ◌≡◌, ◌≢◌, ◌↔◌, ◌⊎◌, inl, inr, refl, ap, ◌∙◌, Option, none, some, String, str_eq, if_either, arith,
}
use go_rpc_gateway.Discovery.Registration.{DynamicHandler}
use go_rpc_gateway.Discovery.Handler.{
  Code, ok, canceled, unknown, invalid_argument, deadline_exceeded, not_found, already_exists,
  permission_denied, resource_exhausted, failed_precondition, aborted, out_of_range, unimplemented,
  internal, unavailable, data_loss, unauthenticated, other_code, grpc_status_to_http, Response,
  Reply, replied, refused, broken, Request, Protobuf, parsed, set_parsed, fill_field, fill_named,
  fill_body, filled, input_message, marshalled, answered, call, respond, serve,
}

-- The status of an error is not the code that says there is none.
pub record Refuses {Conn Descriptor Form : Type 0} (p : Protobuf Conn Descriptor Form)
    : Type 0 where
  pub invoke-refused :
      (conn : Conn) (context : p.Context) (method : String) (message : p.Message)
      (output : Descriptor) (code : Code) (text : String)
      → p.invoke conn context method message output ≡ refused code text
      → code ≢ ok

grpc_status_to_http-bad : (code : Code) → code ≢ ok → grpc_status_to_http code ≢ 200
unfolding grpc_status_to_http
grpc_status_to_http-bad ok h = absurd (h refl)
grpc_status_to_http-bad canceled h = omega arith
grpc_status_to_http-bad unknown h = omega arith
grpc_status_to_http-bad invalid_argument h = omega arith
grpc_status_to_http-bad deadline_exceeded h = omega arith
grpc_status_to_http-bad not_found h = omega arith
grpc_status_to_http-bad already_exists h = omega arith
grpc_status_to_http-bad permission_denied h = omega arith
grpc_status_to_http-bad resource_exhausted h = omega arith
grpc_status_to_http-bad failed_precondition h = omega arith
grpc_status_to_http-bad aborted h = omega arith
grpc_status_to_http-bad out_of_range h = omega arith
grpc_status_to_http-bad unimplemented h = omega arith
grpc_status_to_http-bad internal h = omega arith
grpc_status_to_http-bad unavailable h = omega arith
grpc_status_to_http-bad data_loss h = omega arith
grpc_status_to_http-bad unauthenticated h = omega arith
grpc_status_to_http-bad (other_code n) h = omega arith

module _ {Conn Descriptor Form : Type 0} (p : Protobuf Conn Descriptor Form) where
  -- A request that is answered with an error, before a call, is a bad request.
  abbrev Bad : Response ⊎ p.Message → Type 0
  Bad (inl response) = response.status ≡ 400
  Bad (inr message) = Unit

  parsed-Bad : (text : String) (o : String ⊎ p.Message) → Bad (parsed p text o)
  unfolding parsed
  parsed-Bad text (inl e) = refl
  parsed-Bad text (inr message) = tt

  set_parsed-Bad :
      (message : p.Message) (field : p.Field) (o : String ⊎ p.Message)
      → Bad (set_parsed p message field o)
  unfolding set_parsed
  set_parsed-Bad message field (inl e) = refl
  set_parsed-Bad message field (inr value) = tt

  fill_field-Bad :
      (name text : String) (message : p.Message) (field : p.Field) (kind : Option Descriptor)
      → Bad (fill_field p name text message field kind)
  unfolding fill_field
  fill_field-Bad name text message field (some descriptor) =
      set_parsed-Bad message field (p.unmarshal text (p.new_message descriptor))
  fill_field-Bad name text message field none = parsed-Bad _ (p.unmarshal _ message)

  fill_named-Bad :
      (name text : String) (message : p.Message) (field : Option p.Field)
      → Bad (fill_named p name text message field)
  unfolding fill_named
  fill_named-Bad name text message none = tt
  fill_named-Bad name text message (some field) =
      fill_field-Bad name text message field (p.message_of field)

  fill_body-Bad :
      (input : Descriptor) (name : String) (body : Option (Option String)) (message : p.Message)
      → Bad (fill_body p input name body message)
  unfolding fill_body
  fill_body-Bad input name none message = tt
  fill_body-Bad input name (some none) message = if_either Bad (str_eq name "") tt refl
  fill_body-Bad input name (some (some text)) message = if_either Bad (str_eq name "") tt (
      if_either Bad (str_eq text "") tt (
        if_either Bad (str_eq name "*") (parsed-Bad _ (p.unmarshal text message))
          (fill_named-Bad name text message (p.field_by_name input name))))

  filled-Bad : (r : Request Form) (o : Response ⊎ p.Message) → Bad o → Bad (filled p r o)
  unfolding filled
  filled-Bad r (inl response) bad = bad
  filled-Bad r (inr message) bad = tt

  -- The call is made, gets a reply, and the reply is written.
  pub record Succeeds (h : DynamicHandler Conn Descriptor) (r : Request Form) : Type 0 where
    pub message : p.Message
    pub context : p.Context
    pub reply : p.Message
    pub text : String
    pub sent : input_message p h r ≡ inr message
    pub annotated : p.annotate_context r h.full_method_name ≡ inr context
    pub invoked : p.invoke h.conn context h.full_method_name message h.output_type ≡ replied reply
    pub written : p.marshal reply ≡ inr text

  marshalled-200 :
      (o : String ⊎ String) → (marshalled p o).status ≡ 200 → (text : String) × (o ≡ inr text)
  unfolding marshalled
  marshalled-200 (inl e) h = absurd (omega (arith, h))
  marshalled-200 (inr text) h = (text, refl)

  module _ (refuses : Refuses p) (h : DynamicHandler Conn Descriptor) (r : Request Form) where
    answered-200 :
        (context : p.Context) (message : p.Message) (reply : Reply p.Message)
        → input_message p h r ≡ inr message
        → p.annotate_context r h.full_method_name ≡ inr context
        → p.invoke h.conn context h.full_method_name message h.output_type ≡ reply
        → (answered p reply).status ≡ 200
        → Succeeds h r
    unfolding answered
    answered-200 context message (refused code text) sent annotated invoked good = absurd (
        grpc_status_to_http-bad code
          (refuses.invoke-refused h.conn context h.full_method_name message h.output_type code text
            invoked)
          good)
    answered-200 context message (broken e) sent annotated invoked good =
        absurd (omega (arith, good))
    answered-200 context message (replied reply) sent annotated invoked good =
        let own = marshalled-200 (p.marshal reply) good in
        record {
          message = message;
          context = context;
          reply = reply;
          text = own.0;
          sent = sent;
          annotated = annotated;
          invoked = invoked;
          written = own.1;
        }

    call-200 :
        (message : p.Message) (context : String ⊎ p.Context)
        → input_message p h r ≡ inr message
        → p.annotate_context r h.full_method_name ≡ context
        → (call p h message context).status ≡ 200
        → Succeeds h r
    unfolding call
    call-200 message (inl e) sent annotated good = absurd (omega (arith, good))
    call-200 message (inr context) sent annotated good =
        answered-200 context message
          (p.invoke h.conn context h.full_method_name message h.output_type) sent annotated refl
          good

    respond-200 :
        (o : Response ⊎ p.Message)
        → Bad o
        → input_message p h r ≡ o
        → (respond p h r o).status ≡ 200
        → Succeeds h r
    unfolding respond
    respond-200 (inl response) bad sent good = absurd (ground (arith, bad, good))
    respond-200 (inr message) bad sent good =
        call-200 message (p.annotate_context r h.full_method_name) sent refl good

    input_message-Bad : Bad (input_message p h r)
    unfolding input_message
    input_message-Bad =
        filled-Bad r _
          (fill_body-Bad h.input_type h.route.body_field r.body (p.new_message h.input_type))

    Succeeds-200 : Succeeds h r → (serve p h r).status ≡ 200
    unfolding serve respond call answered marshalled
    Succeeds-200 w =
        ap (λ (o : Response ⊎ p.Message). (respond p h r o).status) w.sent
        ∙ ap (λ (c : String ⊎ p.Context). (call p h w.message c).status) w.annotated
        ∙ ap (λ (reply : Reply p.Message). (answered p reply).status) w.invoked
        ∙ ap (λ (o : String ⊎ String). (marshalled p o).status) w.written

    -- When an error's status is never the code that says there is none: the response of a route's
    -- handler has status 200 exactly when the request gives a message, the metadata of the call can be
    -- built, the call gets a reply, and the reply can be written as JSON.
    pub serve-200_iff : ((serve p h r).status ≡ 200) ↔ Succeeds h r
    unfolding serve
    serve-200_iff = (respond-200 (input_message p h r) input_message-Bad refl, Succeeds-200)
