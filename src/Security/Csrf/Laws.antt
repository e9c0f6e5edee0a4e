-- ===== src/Security/Csrf/Laws.antt =====
-- What the CSRF check of middleware/security.go lets through.
use go_rpc_gateway.Prelude.{ℕ, ◌≡◌, refl, Bool, true, List, [], ◌∷◌, if◌then◌else◌, arith}
use go_rpc_gateway.Prelude.Dict.{Dict, lookup}
use go_rpc_gateway.Security.Csrf.{
  Outcome, next_called, refused, Request, is_exempt, validate_csrf_token,
  csrf_protection_middleware,
}

-- The answers to requests one after another, each with its time.
unfoldable pub answers : Bool → List (ℕ × Request) → Dict ℕ → List Outcome
answers enabled [] tokens = []
answers enabled ((now, r) ∷ rest) tokens =
    let step = csrf_protection_middleware enabled now r tokens in
    step.1 ∷ answers enabled rest step.0

abbrev pub expected : Request → Outcome
expected r = if is_exempt r.method then next_called else refused

abbrev pub verdicts : List (ℕ × Request) → List Outcome
verdicts [] = []
verdicts ((now, r) ∷ rest) = expected r ∷ verdicts rest

no_tokens : (now : ℕ) (r : Request) → csrf_protection_middleware true now r [] ≡ ([], expected r)
unfolding csrf_protection_middleware validate_csrf_token lookup
no_tokens now r = ground arith

-- The middleware starts without tokens and never gets any: where it is on, it refuses every request
-- whose method is not exempt, whatever token the request carries, and only those.
pub answers_refused : (rs : List (ℕ × Request)) → answers true rs [] ≡ verdicts rs
unfolding answers
answers_refused [] = refl
answers_refused ((now, r) ∷ rest) = rw (no_tokens now r) (ground (arith, answers_refused rest))
