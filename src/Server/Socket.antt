-- ===== src/Server/Socket.antt =====
-- server/server.go, `serveWebSocket` from the forwarded request on: the answer to the upgrade, and the
-- relay between the browser's connection and the tunnel.
pub mod Refusals
pub mod Payloads
pub mod Losses
pub mod Tests
use muxbridge.Base.{
  ℕ, ◌≡◌, ◌≢◌, Bool, true, false, not, Option, none, some, List, [], ◌∷◌, ◌++◌, ◌==◌, if◌then◌else◌,
  Bytes, codes,
}
use muxbridge.Headers.{Headers, from_proto}
use muxbridge.Wire.{ResponseStart, ClientFrame, ServerFrame}
use muxbridge.Server.Response.{ResponseState, WsState, close_ws, new_ws_state, fail}
use muxbridge.Server.Exchange.{receive_frame, receive_ws_data}
use muxbridge.Server.Relay.{
  Writer, http_error, write_bad_gateway, status_bad_gateway, start_response,
}

-- Whether the browser's connection can be taken over, and what its buffer holds by then.
pub data Hijack : Type 0 where
  no_hijacker hijack_fails : Hijack
  hijacks : Bytes → Hijack

abbrev pub status_switching : ℕ
status_switching = 101

abbrev pub status_version : ℕ
status_version = 505

-- Where the handler stands before the relay. `breaks`: the connection could not be taken over, and is
-- closed; `switches`: it is taken over, with the bytes that its buffer holds.
pub data Upgrade : Type 0 where
  waits_for : ResponseState → Writer → Upgrade
  fails_with cancels refuses : Writer → Upgrade
  breaks : Upgrade
  switches : ResponseStart → Bytes → Upgrade

pub data UpgradePick : Type 0 where
  pick_start pick_err pick_done pick_session pick_context : UpgradePick

-- What follows the `select`, for the start that it gave.
unfoldable pub answer : Hijack → ResponseStart → Writer → Upgrade
answer hijack m w =
    if m.status_code == status_switching
    then (elim hijack [
      | no_hijacker ↦ fails_with (http_error (codes "WebSocket requires HTTP/1.1") status_version w)
      | hijack_fails ↦ breaks
      | hijacks buffered ↦ switches m buffered
    ])
    else refuses (start_response m w)

unfoldable pub take_start : Hijack → List ResponseStart → Writer → Option Upgrade
take_start hijack [] w = none
take_start hijack (m ∷ rest) w = some (answer hijack m w)

take_err : List Bytes → Writer → Option Upgrade
take_err [] w = none
take_err (e ∷ rest) w = some (fails_with (write_bad_gateway w))

-- `state.done` is taken: `state.start` is not looked at.
on_done : List Bytes → Writer → Upgrade
on_done (e ∷ rest) w = fails_with (write_bad_gateway w)
on_done [] w = fails_with (http_error (codes "tunnel closed connection") status_bad_gateway w)

-- The `select` that waits for the start; `none`: the case is not ready. `ended`: the session is done;
-- `gone`: the browser has left.
unfoldable pub upgrade_step : Hijack → Bool → Bool → UpgradePick → Upgrade → Option Upgrade
unfolding take_start take_err on_done
upgrade_step hijack ended gone pick_start (waits_for r w) = take_start hijack r.start w
upgrade_step hijack ended gone pick_err (waits_for r w) = take_err r.err w
upgrade_step hijack ended gone pick_done (waits_for r w) =
    if r.done then some (on_done r.err w) else none
upgrade_step hijack ended gone pick_session (waits_for r w) =
    if ended
    then some (fails_with (http_error (codes "session closed") status_bad_gateway w))
    else none
upgrade_step hijack ended gone pick_context (waits_for r w) =
    if gone then some (cancels w) else none
upgrade_step hijack ended gone p u = none

-- A frame of the request reaches its object, while the handler waits. `held` is that of `deliver`.
unfoldable pub upgrade_deliver :
    Bool → Option ResponseState → ClientFrame → Upgrade → Option Upgrade
upgrade_deliver drop held frame (waits_for r w) = elim (receive_frame drop frame r) [
  | none ↦ none
  | some r' ↦ some (waits_for r' w)
]
upgrade_deliver drop none frame u = some u
upgrade_deliver drop (some r) frame u = elim (receive_frame drop frame r) [
  | none ↦ none
  | some r' ↦ some u
]

unfoldable pub upgrade_lose : Bytes → Upgrade → Upgrade
upgrade_lose e (waits_for r w) = waits_for (fail (some e) r) w
upgrade_lose e u = u

pub record Shake : Type 0 where
  pub upgrade : Upgrade
  pub incoming : List ClientFrame
  pub ended : Bool
  pub gone : Bool

-- The receive loop, the handler, the end of the session and the browser's leave, in any order.
pub data ShakeStep (hijack : Hijack) (x : Shake) : Shake → Type 0 where
  receives :
      (drop : Bool) (held : Option ResponseState) (frame : ClientFrame) (rest : List ClientFrame)
      (u : Upgrade)
      → x.incoming ≡ frame ∷ rest
      → upgrade_deliver drop held frame x.upgrade ≡ some u
      → ShakeStep hijack x (record x { upgrade = u; incoming = rest })
  picks :
      (p : UpgradePick) (u : Upgrade)
      → upgrade_step hijack x.ended x.gone p x.upgrade ≡ some u
      → ShakeStep hijack x (record x { upgrade = u })
  loses :
      (e : Bytes)
      → ShakeStep hijack x
          (record x { upgrade = upgrade_lose e x.upgrade; incoming = []; ended = true })
  leaves : ShakeStep hijack x (record x { gone = true })

pub data ShakeReach (hijack : Hijack) (x : Shake) : Shake → Type 0 where
  stay : ShakeReach hijack x x
  next : {y z : Shake} → ShakeReach hijack x y → ShakeStep hijack y z → ShakeReach hijack x z

crlf : Bytes
crlf = 13 ∷ 10 ∷ []

value_lines : Bytes → List Bytes → Bytes
unfolding crlf
value_lines k [] = []
value_lines k (v ∷ vs) = (k ++ (codes ": " ++ (v ++ crlf))) ++ value_lines k vs

header_lines : Headers → Bytes
unfolding value_lines
header_lines [] = []
header_lines ((k, vs) ∷ h) = value_lines k vs ++ header_lines h

-- What the browser is sent before the relay. A write of it that fails ends the handler.
unfoldable pub upgrade_text : ResponseStart → Bytes
unfolding crlf header_lines
upgrade_text m =
    codes "HTTP/1.1 101 Switching Protocols"
    ++ (crlf ++ (header_lines (from_proto m.headers) ++ crlf))

-- The relay behind the handshake: the socket's object, the bytes that the browser got from it, and the
-- frames that the read loop has put on the session.
pub record Link : Type 0 where
  pub ws : WsState
  pub written : Bytes
  pub sent : List ServerFrame
  pub read_done : Bool

pub data Socket : Type 0 where
  live over : Link → Socket

abbrev pub opened : Link
unfolding new_ws_state
opened = record { ws = new_ws_state; written = []; sent = []; read_done = false }

-- The end of the handler: the deferred `ws.close()`.
unfoldable pub hang_up : Link → Socket
hang_up l = over (record l { ws = close_ws l.ws })

-- A payload of the client reaches the socket; one that comes behind its end is not sent on.
unfoldable pub take_payload : Bool → Bytes → Socket → Option Socket
take_payload drop payload (live l) = elim (receive_ws_data drop payload l.ws) [
  | none ↦ none
  | some ws ↦ some (live (record l { ws = ws }))
]
take_payload drop payload (over l) = some (over l)

unfoldable pub take_close : Socket → Socket
take_close (live l) = live (record l { ws = close_ws l.ws })
take_close (over l) = over l

-- `conn.Write(data)` with its two deadlines: `fine` says whether all three went well.
unfoldable pub write_payload : Bool → Link → Option Socket
write_payload fine l = elim l.ws.from_client [
  | [] ↦ none
  | payload ∷ rest ↦ some (
      if fine
      then live
          (record l { ws = record l.ws { from_client = rest }; written = l.written ++ payload })
      else hang_up (record l { ws = record l.ws { from_client = rest } }))
]

-- What the connection's buffer held when it was taken over goes first; the loop goes on whether its
-- frame is taken or not.
unfoldable pub drain_buffered : ℕ → Bytes → Bool → Link → Link
drain_buffered id buffered taken l =
    if taken then record l { sent = l.sent ++ ServerFrame.ws_data id buffered ∷ [] } else l

-- The read loop has read `payload`, and its frame was taken by the session or not.
unfoldable pub read_payload : ℕ → Bytes → Bool → Link → Link
read_payload id payload taken l =
    if taken
    then record l { sent = l.sent ++ ServerFrame.ws_data id payload ∷ [] }
    else record l { read_done = true }

-- The read loop has met an error: it offers the socket's close and ends.
unfoldable pub read_end : ℕ → Bool → Link → Link
read_end id taken l = record l {
  sent = if taken then l.sent ++ ServerFrame.ws_close id ∷ [] else l.sent;
  read_done = true;
}

-- The payloads of the client that are on their way, then its close.
pub record Relay : Type 0 where
  pub socket : Socket
  pub incoming : List Bytes
  pub closing : Bool

pub data RelayStep (id : ℕ) : Relay → Relay → Type 0 where
  gets :
      {s s' : Socket} {payload : Bytes} {rest : List Bytes} {closing : Bool} (drop : Bool)
      → take_payload drop payload s ≡ some s'
      → RelayStep id
          (record { socket = s; incoming = payload ∷ rest; closing = closing })
          (record { socket = s'; incoming = rest; closing = closing })
  gets_close :
      {s : Socket}
      → RelayStep id
          (record { socket = s; incoming = []; closing = true })
          (record { socket = take_close s; incoming = []; closing = false })
  writes :
      {l : Link} {s : Socket} {incoming : List Bytes} {closing : Bool} (fine : Bool)
      → write_payload fine l ≡ some s
      → RelayStep id
          (record { socket = live l; incoming = incoming; closing = closing })
          (record { socket = s; incoming = incoming; closing = closing })
  -- `ws.done` or `readDone`
  ends :
      {l : Link} {incoming : List Bytes} {closing : Bool}
      → (if l.ws.done then true else l.read_done) ≡ true
      → RelayStep id
          (record { socket = live l; incoming = incoming; closing = closing })
          (record { socket = hang_up l; incoming = incoming; closing = closing })
  -- `sess.done`, which closes the sockets too
  loses :
      {s : Socket} {incoming : List Bytes} {closing : Bool}
      → RelayStep id
          (record { socket = s; incoming = incoming; closing = closing })
          (record { socket = take_close s; incoming = []; closing = false })
  -- `r.Context().Done()`
  leaves :
      {l : Link} {incoming : List Bytes} {closing : Bool}
      → RelayStep id
          (record { socket = live l; incoming = incoming; closing = closing })
          (record { socket = hang_up l; incoming = incoming; closing = closing })
  drains :
      {l : Link} {incoming : List Bytes} {closing : Bool} (buffered : Bytes) (taken : Bool)
      → l.sent ≡ []
      → l.read_done ≡ false
      → RelayStep id
          (record { socket = live l; incoming = incoming; closing = closing })
          (record {
            socket = live (drain_buffered id buffered taken l);
            incoming = incoming;
            closing = closing;
          })
  reads :
      {l : Link} {incoming : List Bytes} {closing : Bool} (payload : Bytes) (taken : Bool)
      → l.read_done ≡ false
      → RelayStep id
          (record { socket = live l; incoming = incoming; closing = closing })
          (record {
            socket = live (read_payload id payload taken l);
            incoming = incoming;
            closing = closing;
          })
  reads_end :
      {l : Link} {incoming : List Bytes} {closing : Bool} (taken : Bool)
      → l.read_done ≡ false
      → RelayStep id
          (record { socket = live l; incoming = incoming; closing = closing })
          (record { socket = live (read_end id taken l); incoming = incoming; closing = closing })

pub data RelayReach (id : ℕ) (x : Relay) : Relay → Type 0 where
  stay : RelayReach id x x
  next : {y z : Relay} → RelayReach id x y → RelayStep id y z → RelayReach id x z
