-- ===== src/Breaker/Middleware.antt =====
-- breaker/middleware.go and middleware/breaker.go: the two HTTP middlewares around the manager,
-- each with its own response writer. The next handler is known by its calls of the writer.
pub mod Laws
use go_rpc_gateway.Prelude.{ℕ, Bool, true, false, List, [], ◌∷◌, String, leb, if◌then◌else◌}
use go_rpc_gateway.Breaker.{Breaker, allow, record_success, record_failure}
use go_rpc_gateway.Breaker.Manager.{Manager, get_breaker, update_breaker, is_path_protected}

-- What a handler does to the response writer: `WriteHeader(code)`, or `Write` with some bytes.
pub data WriterCall : Type 0 where
  write_header : ℕ → WriterCall
  write : WriterCall

-- breaker/middleware.go
pub record ResponseWriter : Type 0 where
  pub status_code : ℕ
  pub written : Bool

unfoldable pub new_response_writer : ResponseWriter
new_response_writer = record { status_code = 200; written = false }

unfoldable pub wrapper_call : WriterCall → ResponseWriter → ResponseWriter
wrapper_call (write_header code) w =
    if w.written then w else record { status_code = code; written = true }
wrapper_call write w = if w.written then w else record { status_code = 200; written = true }

unfoldable pub wrapper_calls : List WriterCall → ResponseWriter → ResponseWriter
wrapper_calls [] w = w
wrapper_calls (c ∷ cs) w = wrapper_calls cs (wrapper_call c w)

unfoldable pub captured_status : List WriterCall → ℕ
unfolding wrapper_calls wrapper_call new_response_writer
captured_status cs = (wrapper_calls cs new_response_writer).status_code

-- middleware/breaker.go: this wrapper has no flag and no `Write` of its own.
unfoldable pub last_header : List WriterCall → ℕ → ℕ
last_header [] code = code
last_header (write_header code ∷ cs) old = last_header cs code
last_header (write ∷ cs) old = last_header cs old

unfoldable pub ungated_status : List WriterCall → ℕ
unfolding last_header
ungated_status cs = last_header cs 200

pub data Outcome : Type 0 where
  passed : Outcome
  rejected : Outcome
  admitted : Outcome

-- The middleware up to the call of the next handler: `passed` and `admitted` call it, the first
-- outside the breaker's protection; `rejected` answers 503 and does not.
unfoldable pub enter : String → ℕ → Manager → Manager × Outcome
enter path now m =
    if is_path_protected path m
    then (let m' = (get_breaker path now m).0 in
        let verdict = (allow now (get_breaker path now m).1).1 in
        (update_breaker path (λ b. (allow now b).0) m', if verdict then admitted else rejected))
    else (m, passed)

-- The report of a finished request to its breaker: a failure from status 500 on.
abbrev pub report : ℕ → ℕ → Breaker → Breaker
report now status b = if leb 500 status then record_failure now b else record_success now b

-- The middleware after the next handler has returned, with the status that the wrapper captured.
unfoldable pub leave : String → ℕ → ℕ → Manager → Manager
leave path now status m = update_breaker path (report now status) m

after_enter : String → ℕ → ℕ → Manager × Outcome → Manager × Outcome
after_enter path now status (m, admitted) = (leave path now status m, admitted)
after_enter path now status (m, passed) = (m, passed)
after_enter path now status (m, rejected) = (m, rejected)

-- breaker/middleware.go: one request with no other between; the handler runs from `now` to `done`.
unfoldable pub http_middleware : String → ℕ → ℕ → List WriterCall → Manager → Manager × Outcome
unfolding after_enter enter leave
http_middleware path now done calls m =
    after_enter path done (captured_status calls) (enter path now m)

-- middleware/breaker.go: `BreakerMiddleware`.
unfoldable pub breaker_middleware :
    Bool → String → ℕ → ℕ → List WriterCall → Manager → Manager × Outcome
unfolding after_enter enter leave
breaker_middleware enabled path now done calls m =
    if enabled then after_enter path done (ungated_status calls) (enter path now m) else (m, passed)
