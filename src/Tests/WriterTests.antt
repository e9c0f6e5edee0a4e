-- ===== src/Tests/WriterTests.antt =====
-- The shared response writer (middleware/response_writer.go).
use go_rpc_gateway.Prelude.{◌≡◌, true, false, some, List, [], ◌∷◌, length}
use go_rpc_gateway.Prelude.Int.{pos}
use go_rpc_gateway.ResponseWriter.{
  ResponseWriter, Call, write_header, write, enable_body_capture, Sent, header, bytes,
  new_response_writer, run,
}
use go_rpc_gateway.ResponseWriter.Laws.{run-new_response_writer}

-- A writer that captured the body of another request.
abbrev used : ResponseWriter
used = record {
  status_code = 500;
  bytes_written = pos 2;
  wrote_header = true;
  hijacked = false;
  body = 1 ∷ 2 ∷ [];
  capture_body = true;
}

abbrev calls : List Call
calls = write (7 ∷ []) ∷ enable_body_capture ∷ write_header 404 ∷ write (8 ∷ 9 ∷ []) ∷ []

abbrev sent : List Sent
sent = header 200 ∷ bytes (7 ∷ []) ∷ bytes (8 ∷ 9 ∷ []) ∷ []

run-new_response_writer_example :
    ((run length true calls (new_response_writer (some used))).1 ≡ sent)
    × ((run length true calls (new_response_writer (some used))).0.status_code ≡ 200)
    × ((run length true calls (new_response_writer (some used))).0.body ≡ 8 ∷ 9 ∷ [])
run-new_response_writer_example = run-new_response_writer length true (some used) calls
