-- ===== src/ResponseWriter.antt =====
-- middleware/response_writer.go: the response writer that the middlewares share, over the writer of
-- net/http. A writer comes from a pool and goes back to it.
pub mod Laws
use go_rpc_gateway.Prelude.{
  ℕ, Bool, true, false, ◌&&◌, Option, none, some, List, [], ◌∷◌, ◌++◌, leb, ltb, if◌then◌else◌,
}
use go_rpc_gateway.Prelude.Int.{ℤ, pos, ◌+ℤ◌}
use go_rpc_gateway.Prelude.Words.{int64}

abbrev pub Bytes : Type 0
Bytes = List ℕ

-- The fields but the writer below, which the calls that are passed on to it stand for.
pub record ResponseWriter : Type 0 where
  pub status_code : ℕ
  pub bytes_written : ℤ
  pub wrote_header : Bool
  pub hijacked : Bool
  pub body : Bytes
  pub capture_body : Bool

-- What a handler calls.
pub data Call : Type 0 where
  write_header : (code : ℕ) → Call
  write : Bytes → Call
  enable_body_capture : Call
  hijack : Call

-- What the writer below is called with.
pub data Sent : Type 0 where
  header : (code : ℕ) → Sent
  bytes : Bytes → Sent
  taken_over : Sent

-- The writer that the pool's `New` makes, and one from the pool, reset: `pooled` is what the pool gives.
abbrev pub pool_new : ResponseWriter
pool_new = record {
  status_code = 200;
  bytes_written = pos 0;
  wrote_header = false;
  hijacked = false;
  body = [];
  capture_body = false;
}

abbrev pub reset : ResponseWriter → ResponseWriter
reset w = record w {
  status_code = 200;
  bytes_written = pos 0;
  wrote_header = false;
  hijacked = false;
  capture_body = false;
  body = [];
}

unfoldable pub new_response_writer : Option ResponseWriter → ResponseWriter
new_response_writer none = reset pool_new
new_response_writer (some w) = reset w

-- What goes back to the pool.
unfoldable pub release : ResponseWriter → ResponseWriter
release w = record w { body = [] }

unfoldable pub do_write_header : ℕ → ResponseWriter → ResponseWriter × List Sent
do_write_header code w =
    if w.wrote_header
    then (w, [])
    else (record w { status_code = code; wrote_header = true }, header code ∷ [])

-- `n` is the number of bytes that the writer below takes.
unfoldable pub do_write : Bytes → ℕ → ResponseWriter → ResponseWriter × List Sent
unfolding do_write_header
do_write content n w =
    let started = do_write_header 200 w in
    let w' = started.0 in
    (
      record w' {
        body = if w'.capture_body then w'.body ++ content else w'.body;
        bytes_written = int64 (w'.bytes_written +ℤ pos n);
      },
      started.1 ++ bytes content ∷ [],
    )

-- `can_hijack` says whether the writer below is a `http.Hijacker`.
unfoldable pub do_hijack : Bool → ResponseWriter → ResponseWriter × List Sent
do_hijack can_hijack w =
    if can_hijack then (record w { hijacked = true }, taken_over ∷ []) else (w, [])

-- `takes` says how many bytes of a piece the writer below takes.
unfoldable pub step : (Bytes → ℕ) → Bool → Call → ResponseWriter → ResponseWriter × List Sent
unfolding do_write_header do_write do_hijack
step takes can_hijack (write_header code) w = do_write_header code w
step takes can_hijack (write content) w = do_write content (takes content) w
step takes can_hijack enable_body_capture w = (record w { capture_body = true }, [])
step takes can_hijack hijack w = do_hijack can_hijack w

unfoldable pub run : (Bytes → ℕ) → Bool → List Call → ResponseWriter → ResponseWriter × List Sent
unfolding step
run takes can_hijack [] w = (w, [])
run takes can_hijack (c ∷ cs) w =
    let first = step takes can_hijack c w in
    let rest = run takes can_hijack cs first.0 in (rest.0, first.1 ++ rest.1)

abbrev pub is_success : ResponseWriter → Bool
is_success w = leb 200 w.status_code && ltb w.status_code 300

abbrev pub is_client_error : ResponseWriter → Bool
is_client_error w = leb 400 w.status_code && ltb w.status_code 500

abbrev pub is_server_error : ResponseWriter → Bool
is_server_error w = leb 500 w.status_code

abbrev pub is_error : ResponseWriter → Bool
is_error w = leb 400 w.status_code
