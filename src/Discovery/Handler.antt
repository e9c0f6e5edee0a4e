-- ===== src/Discovery/Handler.antt =====
-- cpool/grpc/auto_register.go: the handler of a route, which makes a gRPC call of a HTTP request. A
-- log line is left out.
pub mod Laws
pub mod Status
use Prim.Native.String
use go_rpc_gateway.Prelude.{
  ℕ, ◌⊎◌, inl, inr, Bool, Option, none, some, List, [], ◌∷◌, String, str_eq, if◌then◌else◌,
}
use go_rpc_gateway.Prelude.Dict.{Dict}
use go_rpc_gateway.Discovery.Routes.{HttpRoute}
use go_rpc_gateway.Discovery.Registration.{DynamicHandler}

-- Package codes of gRPC.
pub data Code : Type 0 where
  ok canceled unknown invalid_argument deadline_exceeded not_found already_exists : Code
  permission_denied resource_exhausted failed_precondition aborted out_of_range : Code
  unimplemented internal unavailable data_loss unauthenticated : Code
  other_code : ℕ → Code

unfoldable pub grpc_status_to_http : Code → ℕ
grpc_status_to_http ok = 200
grpc_status_to_http canceled = 499
grpc_status_to_http unknown = 500
grpc_status_to_http invalid_argument = 400
grpc_status_to_http deadline_exceeded = 504
grpc_status_to_http not_found = 404
grpc_status_to_http already_exists = 409
grpc_status_to_http permission_denied = 403
grpc_status_to_http resource_exhausted = 429
grpc_status_to_http failed_precondition = 400
grpc_status_to_http aborted = 409
grpc_status_to_http out_of_range = 400
grpc_status_to_http unimplemented = 501
grpc_status_to_http internal = 500
grpc_status_to_http unavailable = 503
grpc_status_to_http data_loss = 500
grpc_status_to_http unauthenticated = 401
grpc_status_to_http (other_code n) = 500

-- The body of a response: the serialised message, or the code and the message of an error.
pub data Body : Type 0 where
  json : String → Body
  error : Code → String → Body

pub record Response : Type 0 where
  pub content_type : String
  pub status : ℕ
  pub body : Body

unfoldable pub write_error : Code → String → Response
unfolding grpc_status_to_http
write_error code message = record {
  content_type = "application/json";
  status = grpc_status_to_http code;
  body = error code message;
}

-- What a call comes to: a message, a status, or an error that is none.
pub data Reply (Message : Type 0) : Type 0 where
  replied : Message → Reply Message
  refused : Code → String → Reply Message
  broken : String → Reply Message

-- The body, when there is one, is what reading it gives, or an error; the parameters stand in the
-- order of the range over their map; the form is none for an error.
pub record Request (Form : Type 0) : Type 0 where
  pub body : Option (Option String)
  pub path_params : Dict String
  pub form : Option Form

-- Packages protojson, dynamicpb, runtime and grpc: an error is its text. `message_of` is the message
-- type of a field of that kind, and `quote` the verb `%q`.
pub record Protobuf (Conn Descriptor Form : Type 0) : Type 1 where
  pub Message : Type 0
  pub Field : Type 0
  pub Context : Type 0
  pub new_message : Descriptor → Message
  pub unmarshal : String → Message → String ⊎ Message
  pub marshal : Message → String ⊎ String
  pub field_by_name : Descriptor → String → Option Field
  pub message_of : Field → Option Descriptor
  pub set : Message → Field → Message → Message
  pub quote : String → String
  pub populate_field_from_path : Message → String → String → Message
  pub populate_query_parameters : Message → Form → Message
  pub annotate_context : Request Form → String → String ⊎ Context
  pub invoke : Conn → Context → String → Message → Descriptor → Reply Message

module _ {Conn Descriptor Form : Type 0} (p : Protobuf Conn Descriptor Form) where
  open p use {Message, Field}

  -- With the text of the error in front of what failed.
  unfoldable pub parsed : String → String ⊎ Message → Response ⊎ Message
  unfolding write_error
  parsed text (inl e) = inl (write_error invalid_argument (String.◌++◌ text e))
  parsed text (inr message) = inr message

  unfoldable pub set_parsed : Message → Field → String ⊎ Message → Response ⊎ Message
  unfolding write_error
  set_parsed message field (inl e) =
      inl (write_error invalid_argument (String.◌++◌ "failed to parse request body field: " e))
  set_parsed message field (inr value) = inr (p.set message field value)

  -- The body of a field: the message of the field, or its value in JSON.
  unfoldable pub fill_field :
      String → String → Message → Field → Option Descriptor → Response ⊎ Message
  unfolding parsed set_parsed
  fill_field name body_data message field (some descriptor) =
      set_parsed message field (p.unmarshal body_data (p.new_message descriptor))
  fill_field name body_data message field none =
      let wrapped =
        String.◌++◌ "{"
          (String.◌++◌ (p.quote name) (String.◌++◌ ": " (String.◌++◌ body_data "}"))) in
      parsed "failed to parse request body field: " (p.unmarshal wrapped message)

  -- The body is for a field of that name; without one it is not read.
  unfoldable pub fill_named : String → String → Message → Option Field → Response ⊎ Message
  unfolding fill_field
  fill_named name body_data message none = inr message
  fill_named name body_data message (some field) =
      fill_field name body_data message field (p.message_of field)

  unfoldable pub fill_body :
      Descriptor → String → Option (Option String) → Message → Response ⊎ Message
  unfolding parsed fill_named write_error
  fill_body input name none message = inr message
  fill_body input name (some none) message =
      if str_eq name ""
      then inr message
      else inl (write_error invalid_argument "failed to read request body")
  fill_body input name (some (some body_data)) message =
      if str_eq name ""
      then inr message
      else if str_eq body_data ""
      then inr message
      else if str_eq name "*"
      then parsed "failed to parse request body: " (p.unmarshal body_data message)
      else fill_named name body_data message (p.field_by_name input name)

  unfoldable pub fill_path : Dict String → Message → Message
  fill_path [] message = message
  fill_path ((name, value) ∷ rest) message =
      fill_path rest (p.populate_field_from_path message name value)

  unfoldable pub fill_query : Option Form → Message → Message
  fill_query none message = message
  fill_query (some form) message = p.populate_query_parameters message form

  unfoldable pub filled : Request Form → Response ⊎ Message → Response ⊎ Message
  unfolding fill_path fill_query
  filled r (inl response) = inl response
  filled r (inr message) = inr (fill_query r.form (fill_path r.path_params message))

  -- The message of the call, or the response when there is none.
  unfoldable pub input_message : DynamicHandler Conn Descriptor → Request Form → Response ⊎ Message
  unfolding fill_body filled
  input_message h r =
      filled r (fill_body h.input_type h.route.body_field r.body (p.new_message h.input_type))

  unfoldable pub marshalled : String ⊎ String → Response
  unfolding write_error
  marshalled (inl e) = write_error internal (String.◌++◌ "failed to marshal response: " e)
  marshalled (inr body_data) = record {
    content_type = "application/json";
    status = 200;
    body = json body_data;
  }

  unfoldable pub answered : Reply Message → Response
  unfolding marshalled write_error
  answered (refused code message) = write_error code message
  answered (broken e) = write_error internal (String.◌++◌ "gRPC call failed: " e)
  answered (replied message) = marshalled (p.marshal message)

  unfoldable pub call : DynamicHandler Conn Descriptor → Message → String ⊎ p.Context → Response
  unfolding answered write_error
  call h message (inl e) = write_error internal (String.◌++◌ "failed to build gRPC context: " e)
  call h message (inr context) =
      answered (p.invoke h.conn context h.full_method_name message h.output_type)

  unfoldable pub respond :
      DynamicHandler Conn Descriptor → Request Form → Response ⊎ Message → Response
  unfolding call
  respond h r (inl response) = response
  respond h r (inr message) = call h message (p.annotate_context r h.full_method_name)

  -- The function that `createDynamicHandler` returns.
  unfoldable pub serve : DynamicHandler Conn Descriptor → Request Form → Response
  unfolding input_message respond
  serve h r = respond h r (input_message h r)
