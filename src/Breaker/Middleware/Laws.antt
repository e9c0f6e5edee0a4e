-- ===== src/Breaker/Middleware/Laws.antt =====
-- What the breaker's middlewares do to the manager and to the request.
use mathlib.Core.Option
use go_rpc_gateway.Prelude.{
  ℕ, ◌≡◌, ◌≢◌, ◌∙◌, ◌&&◌, refl, true, false, some, List, [], ◌∷◌, String, str_eq, eq_iff,
  if◌then◌else◌, arith, Bool, leb, not, All, ◌==◌,
}
use go_rpc_gateway.Prelude.Dict.{lookup}
use go_rpc_gateway.Breaker.{Breaker, allow, record_success, record_failure}
use go_rpc_gateway.Breaker.Manager.{Manager, get_breaker, is_path_protected, new_breaker}
use go_rpc_gateway.Breaker.Manager.Laws.{lookup-get_breaker, lookup-update_breaker}
use go_rpc_gateway.Breaker.Middleware.{
  WriterCall, write_header, write, wrapper_call, wrapper_calls, captured_status, ungated_status,
  Outcome, passed, rejected, admitted, enter, leave, report, after_enter, http_middleware,
}

-- A status that a handler may send before the final one: 1xx, but for 101.
abbrev pub is_informational : ℕ → Bool
is_informational code = leb 100 code && leb code 199 && not (code == 101)

-- The status that a client gets in the end: that of the first `WriteHeader` that is not
-- informational, 200 if the handler writes before it or sends none. Net/http ignores later calls of
-- `WriteHeader`.
unfoldable pub sent_status : List WriterCall → ℕ
sent_status [] = 200
sent_status (write_header code ∷ cs) =
    let rest = sent_status cs in if is_informational code then rest else code
sent_status (write ∷ cs) = 200

-- A call that is no informational `WriteHeader`.
abbrev pub is_final : WriterCall → Bool
is_final (write_header code) = not (is_informational code)
is_final write = true

wrapper_calls_written :
    (cs : List WriterCall) (code : ℕ)
    → (wrapper_calls cs (record { status_code = code; written = true })).status_code ≡ code
unfolding wrapper_calls wrapper_call
wrapper_calls_written [] code = refl
wrapper_calls_written (write_header c ∷ cs) code = wrapper_calls_written cs code
wrapper_calls_written (write ∷ cs) code = wrapper_calls_written cs code

-- The wrapper of breaker/middleware.go captures the status that the client gets, whatever calls the
-- handler makes, if it sends no informational status.
pub captured_status-sent :
    (cs : List WriterCall) → All (λ c. is_final c ≡ true) cs → captured_status cs ≡ sent_status cs
unfolding captured_status sent_status
captured_status-sent [] finals = refl
captured_status-sent (write_header code ∷ cs) (final, finals) =
    wrapper_calls_written cs code ∙ ground (arith, final)
captured_status-sent (write ∷ cs) finals = wrapper_calls_written cs 200

-- After two calls of `WriteHeader` with different statuses, the first one not informational, the
-- wrapper of middleware/breaker.go, from which the breaker is told success or failure, holds another
-- status than the client gets.
pub ungated_status_late_header :
    (first late : ℕ)
    → is_informational first ≡ false
    → first ≢ late
    → ungated_status (write_header first ∷ write_header late ∷ [])
      ≢ sent_status (write_header first ∷ write_header late ∷ [])
unfolding ungated_status sent_status
ungated_status_late_header first late final h e = h (ground (arith, final, e))

module _ (path : String) (now : ℕ) (m : Manager) where
  -- The breaker that a protected request meets: the one of its path, or a new one.
  abbrev pub met : Breaker
  met = Option.get_or (lookup path m.breakers) (new_breaker now m)

  get_breaker-met : (get_breaker path now m).1 ≡ met
  unfolding get_breaker
  get_breaker-met = ground arith

  -- The breakers after a request has been let in or turned away: that of its own path, if the path
  -- is protected, has been asked; every other is as it was.
  pub lookup-enter :
      (other : String)
      → lookup other (enter path now m).0.breakers ≡ (
          if is_path_protected path m && str_eq path other
          then some (allow now met).0
          else lookup other m.breakers)
  unfolding enter
  lookup-enter other = ground (
    arith,
    eq_iff path other,
    get_breaker-met,
    lookup-get_breaker path other now m,
    lookup-update_breaker path other (λ b. (allow now b).0) (get_breaker path now m).0,
  )

lookup-leave :
    (path other : String) (done status : ℕ) (m : Manager)
    → lookup other (leave path done status m).breakers ≡ (
        if str_eq path other
        then Option.map (report done status) (lookup other m.breakers)
        else lookup other m.breakers)
unfolding leave
lookup-leave path other done status m = lookup-update_breaker path other (report done status) m

enter-verdict :
    (path : String) (now : ℕ) (m : Manager)
    → (enter path now m).1 ≡ (
        if is_path_protected path m
        then if (allow now (met path now m)).1 then admitted else rejected
        else passed)
unfolding enter
enter-verdict path now m = ground (arith, get_breaker-met path now m)

-- What a whole request does to its own breaker: a rejected one leaves it as it was asked, an
-- admitted one has its status reported.
abbrev pub after_request : ℕ → ℕ → Breaker × Bool → Breaker
after_request done status (b, true) =
    if leb 500 status then record_failure done b else record_success done b
after_request done status (b, false) = b

after_enter-breakers :
    (path other : String) (done status : ℕ) (r : Manager × Outcome)
    → lookup other (after_enter path done status r).0.breakers ≡ elim r.1 [
      | admitted ↦ lookup other (leave path done status r.0).breakers
      | _ ↦ lookup other r.0.breakers
    ]
unfolding after_enter
after_enter-breakers path other done status (m, passed) = refl
after_enter-breakers path other done status (m, rejected) = refl
after_enter-breakers path other done status (m, admitted) = refl

-- A request that runs alone changes the breaker of its own path only, and only if the path is
-- protected. There it asks first, and if it is admitted the status that the client gets in the end is
-- reported, as a failure from 500 on and as a success below. The handler sends no informational
-- status (1xx, but for 101).
pub lookup-http_middleware :
    (path other : String) (now done : ℕ) (calls : List WriterCall) (m : Manager)
    → All (λ c. is_final c ≡ true) calls
    → lookup other (http_middleware path now done calls m).0.breakers ≡ (
        if is_path_protected path m && str_eq path other
        then some (after_request done (sent_status calls) (allow now (met path now m)))
        else lookup other m.breakers)
unfolding http_middleware
lookup-http_middleware path other now done calls m finals = ground (
  arith,
  captured_status-sent calls finals,
  enter-verdict path now m,
  lookup-enter path now m other,
  lookup-leave path other done (captured_status calls) (enter path now m).0,
  after_enter-breakers path other done (captured_status calls) (enter path now m),
)
