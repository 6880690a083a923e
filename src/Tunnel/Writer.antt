-- ===== src/Tunnel/Writer.antt =====
-- tunnel/response_writer.go, and `serveRequest` of tunnel/client.go. `send` puts a frame on the
-- stream, whose state is `S`, and says what went wrong.
pub mod Frames
pub mod Journey
pub mod Tests
use muxbridge.Base.{
  ℕ, Bool, true, false, not, ◌&&◌, ◌||◌, Option, none, some, List, [], ◌∷◌, ◌++◌, map,
  if◌then◌else◌, length, Bytes, codes,
}
use muxbridge.Headers.{Headers, to_proto}
use muxbridge.Wire.{ClientFrame, response_start, response_body, response_end, response_error}

abbrev pub status_ok : ℕ
status_ok = 200

pub record ResponseWriter (S : Type 0) : Type 0 where
  pub header : Headers
  pub wrote_header : Bool
  pub ended : Bool
  pub status_code : ℕ
  pub request_id : ℕ
  pub send_err : Option Bytes
  pub stream : S

unfoldable pub new_response_writer : {S : Type 0} → ℕ → S → ResponseWriter S
new_response_writer request_id stream = record {
  header = [];
  wrote_header = false;
  ended = false;
  status_code = status_ok;
  request_id = request_id;
  send_err = none;
  stream = stream;
}

-- What an `http.Handler` does with its `http.ResponseWriter`: it sets the header map, and calls
-- `WriteHeader`, `Write` and `Flush`.
pub data Call : Type 0 where
  sets_header : Headers → Call
  writes_header : ℕ → Call
  writes : Bytes → Call
  flushes : Call

-- How the handler ends; a panic carries its message.
pub data Ending : Type 0 where
  returns : Ending
  panics : Bytes → Ending

module _ {S : Type 0} (send : ClientFrame → S → Option Bytes × S) where
  -- The first error of a send is kept.
  unfoldable pub keep_first : Option Bytes → Option Bytes → Option Bytes
  keep_first (some old) e = some old
  keep_first none e = e

  -- A send whose error is kept in `sendErr`.
  unfoldable pub send_kept : ClientFrame → ResponseWriter S → ResponseWriter S
  unfolding keep_first
  send_kept frame w =
      let (e, stream') = send frame w.stream in
      record w { stream = stream'; send_err = keep_first w.send_err e }

  unfoldable pub write_header : ℕ → ResponseWriter S → ResponseWriter S
  unfolding send_kept
  write_header status w =
      if w.wrote_header || w.ended
      then w
      else send_kept
          (response_start (record {
            request_id = w.request_id;
            status_code = status;
            headers = map some (to_proto w.header);
          }))
          (record w { wrote_header = true; status_code = status })

  -- The frame of a `Write`, once the headers are out.
  unfoldable pub write_chunk : Bytes → ResponseWriter S → (ℕ × Option Bytes) × ResponseWriter S
  unfolding send_kept
  write_chunk p w =
      let w' = send_kept (response_body w.request_id p) w in
      let e : Option Bytes = (send (response_body w.request_id p) w.stream).0 in
      (elim e [ none ↦ (length p, none) | some x ↦ (0, some x) ], w')

  unfoldable pub unless_failed :
      (ResponseWriter S → (ℕ × Option Bytes) × ResponseWriter S)
      → Option Bytes
      → ResponseWriter S
      → (ℕ × Option Bytes) × ResponseWriter S
  unless_failed go (some e) w = ((0, some e), w)
  unless_failed go none w = go w

  -- `Write`: the number of bytes and the error, with the new state.
  unfoldable pub write : Bytes → ResponseWriter S → (ℕ × Option Bytes) × ResponseWriter S
  unfolding write_header write_chunk unless_failed
  write p w =
      let with_header = λ (v : ResponseWriter S).
        let v' = write_header status_ok v in unless_failed (write_chunk p) v'.send_err v' in
      unless_failed (λ v. if not v.wrote_header then with_header v else write_chunk p v) w.send_err
        w

  unfoldable pub flush : ResponseWriter S → ResponseWriter S
  unfolding write_header
  flush w = if not w.wrote_header && not w.ended then write_header status_ok w else w

  unfoldable pub send_last : ClientFrame → ResponseWriter S → Option Bytes × ResponseWriter S
  send_last frame w =
      let (e, stream') = send frame w.stream in (e, record w { ended = true; stream = stream' })

  unfoldable pub finish : ResponseWriter S → Option Bytes × ResponseWriter S
  unfolding write_header send_last
  finish w =
      if w.ended
      then (none, w)
      else let v = if not w.wrote_header then write_header w.status_code w else w in
        if v.ended then (none, v) else send_last (response_end v.request_id) v

  unfoldable pub fail : Option Bytes → ResponseWriter S → Option Bytes × ResponseWriter S
  unfolding send_last
  fail none w = (none, w)
  fail (some e) w = if w.ended then (none, w) else send_last (response_error w.request_id e) w

  unfoldable pub call : Call → ResponseWriter S → ResponseWriter S
  unfolding write write_header flush
  call (sets_header h) w = record w { header = h }
  call (writes_header status) w = write_header status w
  call (writes p) w = (write p w).1
  call flushes w = flush w

  unfoldable pub calls : List Call → ResponseWriter S → ResponseWriter S
  calls [] w = w
  calls (c ∷ cs) w = calls cs (call c w)

  unfoldable pub settle : Ending → ResponseWriter S → ResponseWriter S
  unfolding finish fail
  settle returns w = (finish w).1
  settle (panics message) w = (fail (some (codes "panic while serving request: " ++ message)) w).1

  -- `serveRequest`: the handler, and the deferred function that ends the response.
  unfoldable pub serve_request : ℕ → List Call → Ending → S → ResponseWriter S
  unfolding settle new_response_writer
  serve_request id handler ending stream =
      settle ending (calls handler (new_response_writer id stream))
