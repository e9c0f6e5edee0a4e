-- ===== src/Errors/Laws.antt =====
-- How the errors of errors/error.go reach a client: an error is never reported as a success, and the
-- HTTP and the gRPC status tell the same story.
use mathlib.Core.Option
use go_rpc_gateway.Prelude.{
  ℕ, ◌≡◌, ◌≢◌, ◌↔◌, ◌⊎◌, inl, inr, refl, Bool, true, false, ◌&&◌, ◌||◌, not, all, subst, Option,
  none, some, List, [], ◌∷◌, String, ◌==◌, Bool-cases, arith,
}
use go_rpc_gateway.Errors.Codes.{Name, code, names}
use go_rpc_gateway.Errors.HttpStatuses.{http_status}
use go_rpc_gateway.Errors.Statuses.{StatusCode, status_code}
use go_rpc_gateway.Errors.{
  find_code, AppError, new_error, error_code_string, get_http_status, get_status_code, GoError,
  no_error, app, other, wrap, is_error_code, get_error_code,
}

-- The declared name of a code, if there is one.
abbrev name_of : ℕ → List Name → Option Name
name_of k ns = find_code (λ n. n) k ns

find_code-name_of {ℓ} :
    {V : Type ℓ} (f : Name → V) (k : ℕ) (ns : List Name)
    → find_code f k ns ≡ Option.map f (name_of k ns)
unfolding find_code
find_code-name_of f k [] = refl
find_code-name_of f k (n ∷ ns) = elim (Bool-cases (code n == k)) [
  | inl same ↦ rw same
  | inr differs ↦ rw differs (find_code-name_of f k ns)
]

-- A code has no declared name, or one that has this code and passes a test that all names pass.
name_of_cases :
    (test : Name → Bool) (k : ℕ) (ns : List Name)
    → all test ns ≡ true
    → (name_of k ns ≡ none)
      ⊎ ((n : Name) × (name_of k ns ≡ some n) × (code n ≡ k) × (test n ≡ true))
unfolding find_code
name_of_cases test k [] h = inl refl
name_of_cases test k (n ∷ ns) h = elim (Bool-cases (code n == k)) [
  | inl same ↦ inr (n, rw same, ground arith, ground arith)
  | inr differs ↦ rw differs (name_of_cases test k ns (ground arith))
]

http_status-name_of :
    (e : AppError)
    → get_http_status e ≡ elim (name_of e.code names) [ some n ↦ http_status n | none ↦ 500 ]
unfolding get_http_status
http_status-name_of e = ground (arith, find_code-name_of http_status e.code names)

status_code-name_of :
    (e : AppError)
    → get_status_code e
      ≡ elim (name_of e.code names) [ some n ↦ status_code n | none ↦ StatusCode.unknown ]
unfolding get_status_code
status_code-name_of e = ground (arith, find_code-name_of status_code e.code names)

zero_named : name_of 0 names ≡ some Name.ok
unfolding find_code
zero_named = refl

abbrev is_ok : StatusCode → Bool
is_ok StatusCode.ok = true
is_ok _ = false

abbrev same : Bool → Bool → Bool
same true b = b
same false b = not b

abbrev success_test : Name → Bool
success_test n =
    same (code n == 0) (http_status n == 200) && same (code n == 0) (is_ok (status_code n))

success_table : all success_test names ≡ true
unfolding http_status status_code
success_table = refl

is_ok_iff : (s : StatusCode) → (is_ok s ≡ true) ↔ (s ≡ StatusCode.ok)
is_ok_iff s = ground arith

-- An application error has the HTTP status 200 exactly when its code is that of `OK`, and has the
-- gRPC status OK exactly then, whatever its code, declared or not.
pub success_iff :
    (e : AppError)
    → ((get_http_status e ≡ 200) ↔ (e.code ≡ 0))
      × ((get_status_code e ≡ StatusCode.ok) ↔ (e.code ≡ 0))
success_iff e = elim (name_of_cases success_test e.code names success_table) [
  | inl undeclared ↦
      let not_zero : e.code ≢ 0 = λ z.
        let zero_undeclared : name_of 0 names ≡ none =
          subst (λ (k : ℕ). name_of k names ≡ none) z undeclared in
        cc zero_named in
      ground (arith, http_status-name_of e, status_code-name_of e)
  | inr (n, found, same_code, passes) ↦
      ground (arith, http_status-name_of e, status_code-name_of e, is_ok_iff (status_code n))
]

-- The HTTP status that a gRPC gateway gives for a gRPC status.
abbrev pub canonical : StatusCode → ℕ
canonical StatusCode.ok = 200
canonical StatusCode.canceled = 408
canonical StatusCode.unknown = 500
canonical StatusCode.invalid_argument = 400
canonical StatusCode.deadline_exceeded = 504
canonical StatusCode.not_found = 404
canonical StatusCode.already_exists = 409
canonical StatusCode.permission_denied = 403
canonical StatusCode.resource_exhausted = 429
canonical StatusCode.failed_precondition = 400
canonical StatusCode.aborted = 409
canonical StatusCode.out_of_range = 400
canonical StatusCode.unimplemented = 501
canonical StatusCode.internal = 500
canonical StatusCode.unavailable = 503
canonical StatusCode.data_loss = 500
canonical StatusCode.unauthenticated = 401
canonical (StatusCode.unrecognized n) = 500

-- The codes whose HTTP status is another than that of their gRPC status: method not allowed,
-- request too large, gRPC connection failed and gRPC method not found.
abbrev pub is_exception : ℕ → Bool
is_exception k = k == 3003 || k == 3005 || k == 6001 || k == 6003

abbrev canonical_test : Name → Bool
canonical_test n = same (is_exception (code n)) (not (http_status n == canonical (status_code n)))

canonical_table : all canonical_test names ≡ true
unfolding http_status status_code
canonical_table = refl

exception_named : (k : ℕ) → name_of k names ≡ none → is_exception k ≡ false
unfolding find_code
exception_named k h = ground arith

-- The two statuses of an error agree: the HTTP status is the one that belongs to the gRPC status,
-- for every code but the four exceptions, declared or not, and for those four it is another.
pub http_status-canonical_iff :
    (e : AppError)
    → (get_http_status e ≡ canonical (get_status_code e)) ↔ (is_exception e.code ≡ false)
http_status-canonical_iff e = elim (name_of_cases canonical_test e.code names canonical_table) [
  | inl undeclared ↦
      ground
        (arith, http_status-name_of e, status_code-name_of e, exception_named e.code undeclared)
  | inr (n, found, same_code, passes) ↦ ground (arith, http_status-name_of e, status_code-name_of e)
]

-- What `Wrap` gives, when it gives an error, is either the application error it was given, or the
-- given code with that code's message and the text of another error as details; and of the result
-- `GetErrorCode` reads its code, which `IsErrorCode` confirms.
pub wrap_codes :
    (err : GoError) (k : ℕ) (e : AppError)
    → wrap err k ≡ some e
    → ((err ≡ app e)
        ⊎ ((text : String) × (err ≡ other text)
            × (e.code ≡ k)
            × (e.details ≡ text)
            × (e.message ≡ error_code_string k)))
      × (get_error_code (app e) ≡ e.code)
      × (is_error_code (app e) e.code ≡ true)
unfolding wrap get_error_code is_error_code new_error
wrap_codes no_error k e h = absurd (ground arith)
wrap_codes (app e') k e h = (inl (ground arith), refl, ground arith)
wrap_codes (other text) k e h =
    (inr (text, refl, ground arith, ground arith, ground arith), refl, ground arith)
