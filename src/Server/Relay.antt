-- ===== src/Server/Relay.antt =====
-- server/server.go, `ServeHTTP` from the forwarded request on: the response of one request goes from
-- its channels to the browser. A `Pick` is the case that a `select` takes.
pub mod Frames
mod Progress
pub mod Termination
mod Holds
pub mod Delivery
pub mod Tests
use muxbridge.Base.{
  ℕ, ◌≡◌, Bool, true, false, Option, none, some, List, [], ◌∷◌, ◌++◌, if◌then◌else◌, Bytes, codes,
  same, insert, delete, bytes_eq,
}
use muxbridge.Headers.{Headers, from_proto, copy}
use muxbridge.Wire.{ResponseStart, ClientFrame}
use muxbridge.Server.Response.{ResponseState, fail}
use muxbridge.Server.Exchange.{receive_frame}

-- `http.ResponseWriter` of the browser's connection. `failures` says of the next writes whether each
-- one fails; where it ends, writes succeed.
pub record Writer : Type 0 where
  pub status : Option ℕ
  pub header : Headers
  pub body : Bytes
  pub failures : List Bool

unfoldable pub write_header : ℕ → Writer → Writer
write_header code w = elim w.status [ none ↦ record w { status = some code } | some c ↦ w ]

-- `w.Write(chunk)`, with whether it succeeded.
unfoldable pub write : Bytes → Writer → Writer × Bool
write chunk w = elim w.failures [
  | [] ↦ (record w { body = w.body ++ chunk }, true)
  | failed ∷ rest ↦
      if failed
      then (record w { failures = rest }, false)
      else (record w { body = w.body ++ chunk; failures = rest }, true)
]

-- `http.Error`
unfoldable pub http_error : Bytes → ℕ → Writer → Writer
unfolding write_header write
http_error message code w =
    (write (message ++ b'\n' ∷ []) (
      write_header code (record w {
        header = insert (codes "X-Content-Type-Options") (codes "nosniff" ∷ []) (
            insert (codes "Content-Type") (codes "text/plain; charset=utf-8" ∷ [])
              (delete (codes "Content-Length") w.header));
      }))).0

abbrev pub status_bad_gateway : ℕ
status_bad_gateway = 502

abbrev pub public_bad_gateway_message : Bytes
public_bad_gateway_message = codes "upstream tunnel request failed"

unfoldable pub write_bad_gateway : Writer → Writer
unfolding http_error
write_bad_gateway w = http_error public_bad_gateway_message status_bad_gateway w

-- How the handler returned. `canceled`: it asked the session to cancel the request.
pub data Outcome : Type 0 where
  complete truncated bad_gateway canceled : Outcome

-- The handler before the headers, behind them, and at its end.
pub data Relay : Type 0 where
  awaiting streaming : ResponseState → Writer → Relay
  returned : Outcome → Writer → Relay

pub data Pick : Type 0 where
  pick_start pick_err pick_body pick_done pick_context : Pick

-- The headers of the response.
unfoldable pub start_response : ResponseStart → Writer → Writer
unfolding write_header
start_response m w =
    write_header m.status_code (record w { header = copy w.header (from_proto m.headers) })

-- `state.done` is closed and no start was taken yet.
unfoldable pub await_done : List ResponseStart → List Bytes → ResponseState → Writer → Relay
await_done (m ∷ rest) errors r w = streaming (record r { start = rest }) (start_response m w)
await_done [] (e ∷ rest) r w = returned bad_gateway (write_bad_gateway w)
await_done [] [] r w =
    returned bad_gateway
      (http_error (codes "tunnel closed response before sending headers") status_bad_gateway w)

unfoldable pub await_start : List ResponseStart → ResponseState → Writer → Option Relay
await_start [] r w = none
await_start (m ∷ rest) r w = some (streaming (record r { start = rest }) (start_response m w))

unfoldable pub await_err : List Bytes → Writer → Option Relay
await_err [] w = none
await_err (e ∷ rest) w = some (returned bad_gateway (write_bad_gateway w))

-- `writeChunk`
unfoldable pub write_chunk : Bytes → Writer → Writer × Bool
unfolding write same
write_chunk chunk w = if same chunk [] then (w, true) else write chunk w

-- What the handler returns with behind the last chunk.
unfoldable pub settle : List Bytes → Writer → Relay
settle [] w = returned complete w
settle (e ∷ errors) w = returned truncated w

unfoldable pub drain : List Bytes → List Bytes → Writer → Relay
unfolding settle
drain [] errors w = settle errors w
drain (chunk ∷ chunks) errors w =
    let (w', fine) = write_chunk chunk w in
    let rest = drain chunks errors w' in if fine then rest else returned canceled w'

unfoldable pub after_chunk : ResponseState → Writer × Bool → Relay
after_chunk r (w, true) = streaming r w
after_chunk r (w, false) = returned canceled w

unfoldable pub stream_body : List Bytes → ResponseState → Writer → Option Relay
stream_body [] r w = none
stream_body (chunk ∷ rest) r w = some (after_chunk (record r { body = rest }) (write_chunk chunk w))

-- One round of the handler's loops; `none`: the case is not ready, or not in that `select`.
unfoldable pub relay_step : Bool → Pick → Relay → Option Relay
relay_step gone pick_start (awaiting r w) = await_start r.start r w
relay_step gone pick_err (awaiting r w) = await_err r.err w
relay_step gone pick_done (awaiting r w) =
    if r.done then some (await_done r.start r.err r w) else none
relay_step gone pick_context (awaiting r w) = if gone then some (returned canceled w) else none
relay_step gone pick_body (awaiting r w) = none
relay_step gone pick_body (streaming r w) = stream_body r.body r w
relay_step gone pick_done (streaming r w) = if r.done then some (drain r.body r.err w) else none
relay_step gone pick_context (streaming r w) = if gone then some (returned canceled w) else none
relay_step gone pick_start (streaming r w) = none
relay_step gone pick_err (streaming r w) = none
relay_step gone p (returned o w) = none

-- A frame of the request reaches its object. `held` is the object that the receive loop had got for the
-- frame when the handler gave it up, if it was that far: the loop waits for room in a channel that
-- nobody reads any more. Else the frame of a request that is over is ignored.
unfoldable pub deliver : Bool → Option ResponseState → ClientFrame → Relay → Option Relay
deliver drop held frame (awaiting r w) = elim (receive_frame drop frame r) [
  | none ↦ none
  | some r' ↦ some (awaiting r' w)
]
deliver drop held frame (streaming r w) = elim (receive_frame drop frame r) [
  | none ↦ none
  | some r' ↦ some (streaming r' w)
]
deliver drop none frame (returned o w) = some (returned o w)
deliver drop (some r) frame (returned o w) = elim (receive_frame drop frame r) [
  | none ↦ none
  | some r' ↦ some (returned o w)
]

-- The session is shut down: `rs.fail(err)`.
unfoldable pub lose : Bytes → Relay → Relay
lose e (awaiting r w) = awaiting (fail (some e) r) w
lose e (streaming r w) = streaming (fail (some e) r) w
lose e (returned o w) = returned o w

-- The handler, the frames of its request that the session has yet to read, and the browser.
pub record Exchange : Type 0 where
  pub relay : Relay
  pub incoming : List ClientFrame
  pub gone : Bool

-- The receive loop, the handler, the session's end and the browser's leave, in any order.
pub data Step : Exchange → Exchange → Type 0 where
  receives :
      {relay relay' : Relay} {frame : ClientFrame} {rest : List ClientFrame} {gone : Bool}
      (drop : Bool) (held : Option ResponseState)
      → deliver drop held frame relay ≡ some relay'
      → Step
          (record { relay = relay; incoming = frame ∷ rest; gone = gone })
          (record { relay = relay'; incoming = rest; gone = gone })
  picks :
      {relay relay' : Relay} {incoming : List ClientFrame} {gone : Bool} (p : Pick)
      → relay_step gone p relay ≡ some relay'
      → Step
          (record { relay = relay; incoming = incoming; gone = gone })
          (record { relay = relay'; incoming = incoming; gone = gone })
  loses :
      {relay : Relay} {incoming : List ClientFrame} {gone : Bool} (e : Bytes)
      → Step
          (record { relay = relay; incoming = incoming; gone = gone })
          (record { relay = lose e relay; incoming = []; gone = gone })
  leaves :
      {relay : Relay} {incoming : List ClientFrame} {gone : Bool}
      → Step
          (record { relay = relay; incoming = incoming; gone = gone })
          (record { relay = relay; incoming = incoming; gone = true })

pub data Reach (x : Exchange) : Exchange → Type 0 where
  stay : Reach x x
  next : {y z : Exchange} → Reach x y → Step y z → Reach x z
