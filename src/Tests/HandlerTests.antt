-- ===== src/Tests/HandlerTests.antt =====
-- cpool/grpc/auto_register.go: a request whose query repeats a path parameter.
use go_rpc_gateway.Prelude.{
  ℕ, ◌≡◌, ◌↔◌, inr, refl, Option, none, some, [], ◌∷◌, String, str_eq, if◌then◌else◌, arith,
}
use go_rpc_gateway.Discovery.Registration.{DynamicHandler}
use go_rpc_gateway.Discovery.Handler.{replied, Request, Protobuf, json, call, fill_body, serve}
use go_rpc_gateway.Discovery.Handler.Laws.{or_else, FillsField, field-serve}
use go_rpc_gateway.Discovery.Handler.Status.{Refuses, Succeeds, serve-200_iff}

-- A message is its field `id`, and the form gives that field at most.
abbrev id_value : String → String → Option String
id_value name value = if str_eq name "id" then some value else none

abbrev protobuf : Protobuf ℕ ℕ (Option String)
protobuf = record {
  Message = Option String;
  Field = ℕ;
  Context = ℕ;
  new_message = λ descriptor. none;
  unmarshal = λ text message. inr (some text);
  marshal = λ message. inr (elim message [ none ↦ "{}" | some value ↦ value ]);
  field_by_name = λ descriptor name. none;
  message_of = λ field. none;
  set = λ message field value. value;
  quote = λ text. text;
  populate_field_from_path = λ message name value. or_else (id_value name value) message;
  populate_query_parameters = λ message form. or_else form message;
  annotate_context = λ r method. inr 0;
  invoke = λ conn context method message output. replied message;
}

abbrev fills : FillsField protobuf
fills = record {
  Value = String;
  field = λ message. message;
  path_value = id_value;
  query_value = λ form. form;
  field-populate_field_from_path = λ message name value. refl;
  field-populate_query_parameters = λ message form. refl;
}

refuses : Refuses protobuf
refuses = record {
  invoke-refused = λ conn context method message output code text h e. ground (arith, h);
}

abbrev handler : DynamicHandler ℕ ℕ
handler = record {
  conn = 1;
  full_method_name = "/users.Users/Get";
  input_type = 1;
  output_type = 2;
  route = record {
    service_name = "users.Users";
    method_name = "Get";
    http_method = "GET";
    http_path = "/users/{id}";
    body_field = "";
  };
}

abbrev request : Request (Option String)
request = record { body = some (some ""); path_params = ("id", "7") ∷ []; form = some (some "8") }

field-serve_example :
    (message : Option String) × (serve protobuf handler request
      ≡ call protobuf handler message (inr 0))
    × (message ≡ or_else (some "8") (or_else (some "7") none))
unfolding fill_body
field-serve_example = field-serve protobuf fills handler request none refl

-- The path says 7, and the message that the service gets says 8.
query_wins : (serve protobuf handler request).body ≡ json "8"
unfolding serve
query_wins = refl

serve-200_iff_example :
    ((serve protobuf handler request).status ≡ 200) ↔ Succeeds protobuf handler request
serve-200_iff_example = serve-200_iff protobuf refuses handler request
