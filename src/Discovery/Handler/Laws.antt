-- ===== src/Discovery/Handler/Laws.antt =====
-- cpool/grpc/auto_register.go: which value a field of the message gets, and when a response says that
-- all went well.
use go_rpc_gateway.Prelude.{◌≡◌, ◌⊎◌, inr, refl, sym, ap, ◌∙◌, Option, none, some, [], ◌∷◌, String}
use go_rpc_gateway.Prelude.Dict.{Dict}
use go_rpc_gateway.Discovery.Registration.{DynamicHandler}
use go_rpc_gateway.Discovery.Handler.{
  Response, Request, Protobuf, fill_body, fill_path, fill_query, filled, call, respond, serve,
}

-- The first value, or the second when there is none.
abbrev pub or_else {ℓ} : {A : Type ℓ} → Option A → Option A → Option A
or_else none y = y
or_else (some x) y = some x

-- Package runtime of grpc-gateway, of one scalar field outside a oneof: a parameter that names the
-- field and has a value for it sets the field, and any other keeps it.
pub record FillsField {Conn Descriptor Form : Type 0} (p : Protobuf Conn Descriptor Form)
    : Type 1 where
  pub Value : Type 0
  pub field : p.Message → Option Value
  pub path_value : String → String → Option Value
  pub query_value : Form → Option Value
  pub field-populate_field_from_path :
      (message : p.Message) (name value : String)
      → field (p.populate_field_from_path message name value)
        ≡ or_else (path_value name value) (field message)
  pub field-populate_query_parameters :
      (message : p.Message) (form : Form)
      → field (p.populate_query_parameters message form)
        ≡ or_else (query_value form) (field message)

module _ {Conn Descriptor Form : Type 0} (p : Protobuf Conn Descriptor Form)
    (fills : FillsField p) where
  open fills use {Value}

  -- The last value that a path parameter gives.
  abbrev pub last_path_value : Dict String → Option Value
  last_path_value [] = none
  last_path_value ((name, value) ∷ rest) =
      or_else (last_path_value rest) (fills.path_value name value)

  abbrev pub form_value : Option Form → Option Value
  form_value none = none
  form_value (some form) = fills.query_value form

  or_else_assoc : (x y z : Option Value) → or_else (or_else x y) z ≡ or_else x (or_else y z)
  or_else_assoc none y z = refl
  or_else_assoc (some x) y z = refl

  field-fill_path :
      (params : Dict String) (message : p.Message)
      → fills.field (fill_path p params message)
        ≡ or_else (last_path_value params) (fills.field message)
  unfolding fill_path
  field-fill_path [] message = refl
  field-fill_path ((name, value) ∷ rest) message =
      field-fill_path rest (p.populate_field_from_path message name value)
      ∙ ap (or_else (last_path_value rest))
          (fills.field-populate_field_from_path message name value)
      ∙ sym
          (or_else_assoc (last_path_value rest) (fills.path_value name value) (fills.field message))

  field-fill_query :
      (form : Option Form) (message : p.Message)
      → fills.field (fill_query p form message) ≡ or_else (form_value form) (fills.field message)
  unfolding fill_query
  field-fill_query none message = refl
  field-fill_query (some form) message = fills.field-populate_query_parameters message form

  -- Of a request whose body leads to no error, the call gets a message in which a scalar field
  -- that is not of a oneof has the value of the query, when the query gives it one; else that of
  -- the path, when the path gives it one; else that of the body.
  pub field-serve :
      (h : DynamicHandler Conn Descriptor) (r : Request Form) (body : p.Message)
      → fill_body p h.input_type h.route.body_field r.body (p.new_message h.input_type) ≡ inr body
      → (message : p.Message) × (serve p h r
          ≡ call p h message (p.annotate_context r h.full_method_name))
        × (fills.field message
            ≡ or_else
                (form_value r.form)
                (or_else (last_path_value r.path_params) (fills.field body)))
  unfolding serve respond filled
  field-serve h r body filled_body =
      let pathed = fill_path p r.path_params body in
      (
        fill_query p r.form pathed,
        ap (λ (o : Response ⊎ p.Message). respond p h r (filled p r o)) filled_body,
        field-fill_query r.form pathed
            ∙ ap (or_else (form_value r.form)) (field-fill_path r.path_params body),
      )
