-- ===== src/Server/Forward.antt =====
-- server/server.go, `forwardRequest` and what `ServeHTTP` does where it fails. `send` is `sendFrameCtx`
-- on the request's session, and `poll` is `ctx.Err()`; `S` is the state that they share.
pub mod Frames
pub mod Tests
use muxbridge.Base.{
  ℕ, Bool, true, false, Option, none, some, List, [], ◌∷◌, ◌||◌, map, Bytes, codes, same,
  if◌then◌else◌,
}
use muxbridge.Headers.{Headers, to_proto}
use muxbridge.Wire.{RequestStart, ServerFrame, request_start, request_body, request_end}
use muxbridge.Server.Exchange.{SendError, session_closed, context_error}

-- What `r.Body.Read` returns, call by call: the last call has the bytes that come with the end of the
-- body or with an error.
pub data Reads : Type 0 where
  reads : Bytes → Reads → Reads
  ends : Bytes → Option Bytes → Reads

pub record Request : Type 0 where
  pub method : Bytes
  pub has_tls : Bool
  pub host : Bytes
  pub path : Bytes
  pub raw_path : Bytes
  pub raw_query : Bytes
  pub header : Headers
  pub remote_addr : Bytes
  pub body : Option Reads

pub data ForwardError : Type 0 where
  send_failed : SendError → ForwardError
  context_done : Bytes → ForwardError
  read_failed : Bytes → ForwardError

unfoldable pub scheme_of : Request → Bytes
scheme_of r = if r.has_tls then codes "https" else codes "http"

unfoldable pub start_frame : ℕ → Request → RequestStart
unfolding scheme_of
start_frame id r = record {
  request_id = id;
  method = r.method;
  scheme = scheme_of r;
  host = r.host;
  path = r.path;
  raw_query = r.raw_query;
  headers = map some (to_proto r.header);
  remote_addr = r.remote_addr;
  raw_path = r.raw_path;
}

module _ {S : Type 0} (send : ServerFrame → S → Option SendError × S)
    (poll : S → Option Bytes × S) where
  unfoldable pub send_or :
      (S → Option ForwardError × S) → Option SendError × S → Option ForwardError × S
  send_or go (some e, s) = (some (send_failed e), s)
  send_or go (none, s) = go s

  -- A chunk is sent if it has bytes.
  unfoldable pub send_chunk :
      ℕ → Bytes → (S → Option ForwardError × S) → S → Option ForwardError × S
  unfolding send_or
  send_chunk id chunk go s =
      if same chunk [] then go s else send_or go (send (request_body id chunk) s)

  unfoldable pub send_end : ℕ → S → Option ForwardError × S
  unfolding send_or
  send_end id s = send_or (λ s'. (none, s')) (send (request_end id) s)

  unfoldable pub after_last : ℕ → Option Bytes → S → Option ForwardError × S
  unfolding send_end
  after_last id none s = send_end id s
  after_last id (some e) s = (some (read_failed e), s)

  unfoldable pub unless_done :
      (S → Option ForwardError × S) → Option Bytes × S → Option ForwardError × S
  unless_done go (some e, s) = (some (context_done e), s)
  unless_done go (none, s) = go s

  -- The loop over the body and the frame behind it.
  unfoldable pub forward_body : ℕ → Reads → S → Option ForwardError × S
  unfolding unless_done send_chunk after_last
  forward_body id (ends chunk e) s = unless_done (send_chunk id chunk (after_last id e)) (poll s)
  forward_body id (reads chunk rest) s =
      unless_done (send_chunk id chunk (λ s'. forward_body id rest s')) (poll s)

  unfoldable pub after_start : ℕ → Option Reads → S → Option ForwardError × S
  unfolding send_end
  after_start id none s = send_end id s
  after_start id (some body) s = forward_body id body s

  unfoldable pub forward_request : ℕ → Request → S → Option ForwardError × S
  unfolding send_or after_start
  forward_request id r s =
      send_or (after_start id r.body) (send (request_start (start_frame id r)) s)

-- What `ServeHTTP` does with the result.
pub data Verdict : Type 0 where
  awaits_response answers_bad_gateway returns_silently : Verdict

-- `context.Canceled`
abbrev pub canceled_message : Bytes
canceled_message = codes "context canceled"

-- `errors.Is(err, r.Context().Err())`
is_context_error : Option Bytes → Bytes → Bool
is_context_error none e = false
is_context_error (some now) e = same e now

unfoldable pub context_verdict : Option Bytes → Bytes → Verdict
unfolding is_context_error
context_verdict now e =
    if same e canceled_message || is_context_error now e
    then returns_silently
    else answers_bad_gateway

-- `now` is `r.Context().Err()` behind the call.
unfoldable pub forward_verdict : Option Bytes → Option ForwardError → Verdict
unfolding context_verdict
forward_verdict now none = awaits_response
forward_verdict now (some (send_failed session_closed)) = answers_bad_gateway
forward_verdict now (some (send_failed (context_error e))) = context_verdict now e
forward_verdict now (some (context_done e)) = context_verdict now e
forward_verdict now (some (read_failed e)) = context_verdict now e
