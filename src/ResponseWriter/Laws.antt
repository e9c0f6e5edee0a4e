-- ===== src/ResponseWriter/Laws.antt =====
-- What the response writer of middleware/response_writer.go sends on, and what it says of it.
use go_rpc_gateway.Prelude.{
  ℕ, ◌≡◌, refl, sym, ap, ◌∙◌, Bool, true, false, Option, none, some, List, [], ◌∷◌, ◌++◌, arith,
}
use mathlib.Core.List.{append_assoc, append-nil}
use go_rpc_gateway.ResponseWriter.{
  Bytes, ResponseWriter, Call, write_header, write, enable_body_capture, hijack, Sent, header,
  bytes, taken_over, reset, pool_new, new_response_writer, do_write_header, do_write, do_hijack,
  step, run,
}

-- What is to be sent for calls: the header of the first call that makes one, in its place, and
-- every piece of data.
abbrev pub to_send : Bool → (started : Bool) → List Call → List Sent
to_send can_hijack started [] = []
to_send can_hijack true (write_header code ∷ cs) = to_send can_hijack true cs
to_send can_hijack false (write_header code ∷ cs) = header code ∷ to_send can_hijack true cs
to_send can_hijack true (write content ∷ cs) = bytes content ∷ to_send can_hijack true cs
to_send can_hijack false (write content ∷ cs) =
    header 200 ∷ bytes content ∷ to_send can_hijack true cs
to_send can_hijack started (enable_body_capture ∷ cs) = to_send can_hijack started cs
to_send true started (hijack ∷ cs) = taken_over ∷ to_send true started cs
to_send false started (hijack ∷ cs) = to_send false started cs

-- The code of the last header that was sent, `old` if there is none.
abbrev pub header_of : ℕ → List Sent → ℕ
header_of old [] = old
header_of old (header code ∷ rest) = header_of code rest
header_of old (bytes content ∷ rest) = header_of old rest
header_of old (taken_over ∷ rest) = header_of old rest

header_of-append :
    (old : ℕ) (xs ys : List Sent) → header_of old (xs ++ ys) ≡ header_of (header_of old xs) ys
header_of-append old [] ys = refl
header_of-append old (header code ∷ xs) ys = header_of-append code xs ys
header_of-append old (bytes content ∷ xs) ys = header_of-append old xs ys
header_of-append old (taken_over ∷ xs) ys = header_of-append old xs ys

-- The data of the calls that come after the capture was switched on.
abbrev pub captured : Bool → List Call → Bytes
captured on [] = []
captured on (write_header code ∷ cs) = captured on cs
captured true (write content ∷ cs) = content ++ captured true cs
captured false (write content ∷ cs) = captured false cs
captured on (enable_body_capture ∷ cs) = captured true cs
captured on (hijack ∷ cs) = captured on cs

module _ (takes : Bytes → ℕ) (can_hijack : Bool) where
  sent_by_run :
      (cs : List Call) (w : ResponseWriter)
      → (run takes can_hijack cs w).1 ≡ to_send can_hijack w.wrote_header cs
  unfolding run step do_write_header do_write do_hijack
  sent_by_run [] w = refl
  sent_by_run (c ∷ cs) w = ground (arith, sent_by_run cs (step takes can_hijack c w).0)

  status_of_run :
      (cs : List Call) (w : ResponseWriter)
      → (run takes can_hijack cs w).0.status_code
        ≡ header_of w.status_code (run takes can_hijack cs w).1
  unfolding run step do_write_header do_write do_hijack
  status_of_run [] w = refl
  status_of_run (c ∷ cs) w =
      let next = step takes can_hijack c w in
      ground (
        arith,
        status_of_run cs next.0,
        header_of-append w.status_code next.1 (run takes can_hijack cs next.0).1,
      )

  body_of_run :
      (cs : List Call) (w : ResponseWriter)
      → (run takes can_hijack cs w).0.body ≡ w.body ++ captured w.capture_body cs
  unfolding run step do_write_header do_write do_hijack
  body_of_run [] w = sym (append-nil w.body)
  body_of_run (write content ∷ cs) w = ground (
    arith,
    body_of_run cs (step takes can_hijack (write content) w).0,
    append_assoc w.body content (captured true cs),
  )
  body_of_run (write_header code ∷ cs) w =
      ground (arith, body_of_run cs (step takes can_hijack (write_header code) w).0)
  body_of_run (enable_body_capture ∷ cs) w =
      ground (arith, body_of_run cs (step takes can_hijack enable_body_capture w).0)
  body_of_run (hijack ∷ cs) w = ground (arith, body_of_run cs (step takes can_hijack hijack w).0)

  -- Whatever request a pooled writer served before: the writer below gets the first header, one
  -- before all data and 200 if the handler sets none before it writes, then the data in their order;
  -- the status that the wrapper tells is the one that was sent, or 200 if none was; and what it
  -- captured is the data since the capture was switched on, of this request alone.
  pub run-new_response_writer :
      (pooled : Option ResponseWriter) (cs : List Call)
      → ((run takes can_hijack cs (new_response_writer pooled)).1 ≡ to_send can_hijack false cs)
        × ((run takes can_hijack cs (new_response_writer pooled)).0.status_code
            ≡ header_of 200 (to_send can_hijack false cs))
        × ((run takes can_hijack cs (new_response_writer pooled)).0.body ≡ captured false cs)
  unfolding new_response_writer
  run-new_response_writer none cs =
      let w = reset pool_new in
      (
        sent_by_run cs w,
        status_of_run cs w ∙ ap (header_of 200) (sent_by_run cs w),
        body_of_run cs w,
      )
  run-new_response_writer (some old) cs =
      let w = reset old in
      (
        sent_by_run cs w,
        status_of_run cs w ∙ ap (header_of 200) (sent_by_run cs w),
        body_of_run cs w,
      )
