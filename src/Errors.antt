-- ===== src/Errors.antt =====
-- errors/error.go: application errors and what they become for HTTP and gRPC clients. A formatted
-- text is an argument.
pub mod Codes
pub mod Messages
pub mod HttpStatuses
pub mod Statuses
pub mod Laws
use Prim.Native.String
use go_rpc_gateway.Prelude.{
  ℕ, Bool, true, false, Option, none, some, List, [], ◌∷◌, String, str_eq, ◌==◌, if◌then◌else◌,
}
use go_rpc_gateway.Prelude.Decimal.{decimal}
use go_rpc_gateway.Prelude.Int.{pos}
use go_rpc_gateway.Errors.Codes.{Name, code, names}
use go_rpc_gateway.Errors.Codes
use go_rpc_gateway.Errors.Messages.{message}
use go_rpc_gateway.Errors.HttpStatuses.{http_status}
use go_rpc_gateway.Errors.Statuses.{StatusCode, status_code}

-- A lookup in one of the three maps: each has an entry for every declared code.
unfoldable pub find_code {ℓ} : {V : Type ℓ} → (Name → V) → ℕ → List Name → Option V
find_code f k [] = none
find_code f k (n ∷ ns) = if code n == k then some (f n) else find_code f k ns

pub record AppError : Type 0 where
  pub code : ℕ
  pub message : String
  pub details : String

unfoldable pub error_code_string : ℕ → String
unfolding find_code message
error_code_string k = elim (find_code message k names) [ some m ↦ m | none ↦ message Name.unknown ]

unfoldable pub new_error : ℕ → String → AppError
unfolding error_code_string
new_error k details = record { code = k; message = error_code_string k; details = details }

-- `Error` and `String`
unfoldable pub error_string : AppError → String
unfolding decimal
error_string e =
    let head = String.◌++◌ "[" (String.◌++◌ (decimal (pos e.code)) (String.◌++◌ "] " e.message)) in
    if str_eq e.details "" then head else String.◌++◌ head (String.◌++◌ ": " e.details)

unfoldable pub get_http_status : AppError → ℕ
unfolding find_code http_status
get_http_status e = elim (find_code http_status e.code names) [ some s ↦ s | none ↦ 500 ]

unfoldable pub get_status_code : AppError → StatusCode
unfolding find_code status_code
get_status_code e = elim (find_code status_code e.code names) [
  | some s ↦ s
  | none ↦ StatusCode.unknown
]

-- `commonapis.Result`
pub record Result : Type 0 where
  pub code : ℕ
  pub error : String
  pub status : StatusCode

unfoldable pub to_result : AppError → Result
unfolding get_http_status get_status_code
to_result e = record {
  code = get_http_status e;
  error = if str_eq e.details "" then e.message else e.details;
  status = get_status_code e;
}

-- `WithDetails` writes to the receiver, which is also returned.
unfoldable pub with_details : String → AppError → AppError
with_details details e = record e { details = details }

-- An `error` value: nil, an application error, or another with its text.
pub data GoError : Type 0 where
  no_error : GoError
  app : AppError → GoError
  other : String → GoError

unfoldable pub wrap : GoError → ℕ → Option AppError
unfolding new_error
wrap no_error k = none
wrap (app e) k = some e
wrap (other text) k = some (new_error k text)

-- `formatted` is what `fmt.Sprintf` makes of the format and its arguments.
unfoldable pub wrapf : GoError → ℕ → String → Option AppError
unfolding new_error
wrapf no_error k formatted = none
wrapf (app e) k formatted = some e
wrapf (other text) k formatted = some (
    new_error k
      (if str_eq text "" then formatted else String.◌++◌ formatted (String.◌++◌ ": " text)))

-- `codes.Code` of package grpc.
pub data Code : Type 0 where
  ok canceled unknown invalid_argument deadline_exceeded not_found already_exists : Code
  permission_denied resource_exhausted failed_precondition aborted out_of_range : Code
  unimplemented internal unavailable data_loss unauthenticated : Code

unfoldable pub to_code : StatusCode → Code
to_code StatusCode.ok = Code.ok
to_code StatusCode.canceled = Code.canceled
to_code StatusCode.unknown = Code.unknown
to_code StatusCode.invalid_argument = Code.invalid_argument
to_code StatusCode.deadline_exceeded = Code.deadline_exceeded
to_code StatusCode.not_found = Code.not_found
to_code StatusCode.already_exists = Code.already_exists
to_code StatusCode.permission_denied = Code.permission_denied
to_code StatusCode.resource_exhausted = Code.resource_exhausted
to_code StatusCode.failed_precondition = Code.failed_precondition
to_code StatusCode.aborted = Code.aborted
to_code StatusCode.out_of_range = Code.out_of_range
to_code StatusCode.unimplemented = Code.unimplemented
to_code StatusCode.internal = Code.internal
to_code StatusCode.unavailable = Code.unavailable
to_code StatusCode.data_loss = Code.data_loss
to_code StatusCode.unauthenticated = Code.unauthenticated
to_code (StatusCode.unrecognized n) = Code.unknown

-- The arguments of `status.Error`; a nil receiver gives nil.
unfoldable pub to_grpc_error : Option AppError → Option (Code × String)
unfolding to_code get_status_code
to_grpc_error none = none
to_grpc_error (some e) = some (
  to_code (get_status_code e),
  if str_eq e.details "" then e.message else String.◌++◌ e.message (String.◌++◌ ": " e.details),
)

unfoldable pub is_error_code : GoError → ℕ → Bool
is_error_code (app e) k = e.code == k
is_error_code no_error k = false
is_error_code (other text) k = false

unfoldable pub get_error_code : GoError → ℕ
get_error_code (app e) = e.code
get_error_code no_error = code Name.unknown
get_error_code (other text) = code Name.unknown
