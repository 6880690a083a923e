-- ===== src/Tunnel/Socket.antt =====
-- tunnel/client.go, `handleWebSocket`: the handler's answer to an upgrade goes to the edge, and then the
-- bytes of the socket go both ways. `send` puts a frame on the stream, whose state is `S`; `http` is
-- that of `Dispatch`, and `serve` what the handler's connection gives back.
pub mod Opened
pub mod Delivery
pub mod Journey
pub mod Tests
use muxbridge.Base.{
  ℕ, ◌≡◌, Bool, true, false, Option, none, some, List, [], ◌∷◌, ◌++◌, ◌==◌, if◌then◌else◌, ltb,
  length, map, Bytes,
}
use muxbridge.Headers.{Headers, from_proto, to_proto}
use muxbridge.Wire.{
  RequestStart, ResponseStart, ClientFrame, response_start, response_body, response_end,
  response_error,
}
use muxbridge.Tunnel.Dispatch.{Url, Http, refusal, asked_request, Inbound, inbound_depth}

-- The request that is written to the handler's connection.
pub record Ask : Type 0 where
  pub method : Bytes
  pub url : Url
  pub header : Headers
  pub host : Bytes

unfoldable pub upgrade_request : Http → RequestStart → Ask
upgrade_request http m = record {
  method = (asked_request http m).method;
  url = (asked_request http m).url;
  header = from_proto m.headers;
  host = m.host;
}

-- `req.Write` and `http.ReadResponse` on the connection: the request cannot be written, no response can
-- be read, or there is one, with the pieces in which its body is read.
pub data Handshake : Type 0 where
  write_fails no_response : Bytes → Handshake
  responds : ℕ → Headers → List Bytes → Handshake

abbrev pub status_switching : ℕ
status_switching = 101

-- Whether the handler of the socket goes on to its relay.
pub data Opening (S : Type 0) : Type 0 where
  returns relays : S → Opening S

-- The one-connection listener: `Accept` gives the connection once, and fails behind `Close`; before
-- that it waits. A close does not take back a connection that was not accepted yet.
pub record Listener : Type 0 where
  pub queued : List ℕ
  pub closed : Bool

pub data Accepted : Type 0 where
  conn : ℕ → Accepted
  err_closed accept_waits : Accepted

unfoldable pub new_one_conn_listener : ℕ → Listener
new_one_conn_listener c = record { queued = c ∷ []; closed = false }

unfoldable pub accept : Listener → Accepted × Listener
accept l = elim l.queued [
  | [] ↦ (if l.closed then err_closed else accept_waits, l)
  | c ∷ rest ↦ (conn c, record l { queued = rest })
]

unfoldable pub close_listener : Listener → Listener
close_listener l = record l { closed = true }

-- The relay's side of the session: the channel of the browser's payloads, what the handler's connection
-- got, and whether the read loop is over. A socket in `closing` has seen its channel closed, has closed
-- the connection and waits for the read loop.
pub record Side (S : Type 0) : Type 0 where
  pub inbound : Inbound
  pub written : Bytes
  pub read_done : Bool
  pub stream : S

pub data Socket (S : Type 0) : Type 0 where
  relaying closing over : Side S → Socket S

-- With the payloads on their way; `ending` is true until the browser's close was taken.
pub record Relay (S : Type 0) : Type 0 where
  pub socket : Socket S
  pub incoming : List Bytes
  pub ending : Bool

-- The payload of the oldest frame reaches the channel; `none`: the channel is full.
unfoldable pub arrive : Bytes → Inbound → Option Inbound
arrive payload ch =
    if ltb (length ch.queue) inbound_depth
    then some (record ch { queue = ch.queue ++ payload ∷ [] })
    else none

module _ {S : Type 0} where
  -- The receive from the channel, with the write that follows it: `fine` says whether it went well. A
  -- closed channel gives its payloads first.
  unfoldable pub take_inbound : Bool → Side S → Option (Socket S)
  take_inbound fine p = elim p.inbound.queue [
    | payload ∷ rest ↦
        let p' = record p { inbound = record p.inbound { queue = rest } } in
        some (if fine then relaying (record p' { written = p.written ++ payload }) else over p')
    | [] ↦ if p.inbound.closed then some (closing p) else none
  ]

  -- The frame that the read loop sends; the loop is over with a send that fails.
  unfoldable pub read_sent : Side S → Option Bytes × S → Side S
  read_sent p (none, stream) = record p { stream = stream }
  read_sent p (some e, stream) = record p { stream = stream; read_done = true }

module _ {S : Type 0} (send : ClientFrame → S → Option Bytes × S) (id : ℕ) where
  unfoldable pub read_payload : Bytes → Side S → Side S
  read_payload payload p = read_sent p (send (ClientFrame.ws_data id payload) p.stream)

  unfoldable pub read_end : Side S → Side S
  read_end p = record p { stream = (send (ClientFrame.ws_close id) p.stream).1; read_done = true }

  -- The body of a refusal and the end of the response; a send that fails ends it.
  unfoldable pub forward_refusal : List Bytes → S → S
  forward_refusal [] s = (send (response_end id) s).1
  forward_refusal (c ∷ cs) s =
      let (e, s') = send (response_body id c) s in
      let rest = forward_refusal cs s' in elim e [ some x ↦ s' | none ↦ rest ]

  unfoldable pub report : Bytes → S → Opening S
  report e s = returns (send (response_error id e) s).1

  -- What follows the start of the response.
  unfoldable pub follow : ℕ → List Bytes → Option Bytes × S → Opening S
  unfolding forward_refusal
  follow status chunks (some e, s) = returns s
  follow status chunks (none, s) =
      if status == status_switching then relays s else returns (forward_refusal chunks s)

  unfoldable pub on_handshake : Handshake → S → Opening S
  unfolding report follow
  on_handshake (write_fails e) s = report e s
  on_handshake (no_response e) s = report e s
  on_handshake (responds status header chunks) s = follow status chunks (
      send
        (response_start
          (record { request_id = id; status_code = status; headers = map some (to_proto header) }))
        s)

unfoldable pub open_socket :
    {S : Type 0}
    → (ClientFrame → S → Option Bytes × S)
    → Http
    → (Ask → Handshake)
    → RequestStart
    → S
    → Opening S
unfolding on_handshake report upgrade_request
open_socket send http serve m s = elim (refusal http m) [
  | some e ↦ report send m.request_id e s
  | none ↦ on_handshake send m.request_id (serve (upgrade_request http m)) s
]

-- The session's loop, the relay, its read loop and the end of the context, in any order.
pub data RelayStep {S : Type 0} (send : ClientFrame → S → Option Bytes × S) (id : ℕ)
    : Relay S → Relay S → Type 0 where
  arrives :
      {p : Side S} {payload : Bytes} {rest : List Bytes} {ending : Bool} (ch : Inbound)
      → arrive payload p.inbound ≡ some ch
      → RelayStep send id
          (record { socket = relaying p; incoming = payload ∷ rest; ending = ending })
          (record {
            socket = relaying (record p { inbound = ch });
            incoming = rest;
            ending = ending;
          })
  -- The close of the browser's side.
  shuts :
      {p : Side S}
      → p.inbound.closed ≡ false
      → RelayStep send id
          (record { socket = relaying p; incoming = []; ending = true })
          (record {
            socket = relaying (record p { inbound = record p.inbound { closed = true } });
            incoming = [];
            ending = false;
          })
  -- The end of the session closes the channel too, with frames that were not taken.
  session_ends :
      {p : Side S} {incoming : List Bytes} {ending : Bool}
      → p.inbound.closed ≡ false
      → RelayStep send id
          (record { socket = relaying p; incoming = incoming; ending = ending })
          (record {
            socket = relaying (record p { inbound = record p.inbound { closed = true } });
            incoming = [];
            ending = ending;
          })
  takes :
      {p : Side S} {s : Socket S} {incoming : List Bytes} {ending : Bool} (fine : Bool)
      → take_inbound fine p ≡ some s
      → RelayStep send id
          (record { socket = relaying p; incoming = incoming; ending = ending })
          (record { socket = s; incoming = incoming; ending = ending })
  -- `readDone`
  ends :
      {p : Side S} {incoming : List Bytes} {ending : Bool}
      → p.read_done ≡ true
      → RelayStep send id
          (record { socket = relaying p; incoming = incoming; ending = ending })
          (record { socket = over p; incoming = incoming; ending = ending })
  -- `ctx.Done()`
  leaves :
      {p : Side S} {incoming : List Bytes} {ending : Bool}
      → RelayStep send id
          (record { socket = relaying p; incoming = incoming; ending = ending })
          (record { socket = over p; incoming = incoming; ending = ending })
  waits_for_read :
      {p : Side S} {incoming : List Bytes} {ending : Bool}
      → p.read_done ≡ true
      → RelayStep send id
          (record { socket = closing p; incoming = incoming; ending = ending })
          (record { socket = over p; incoming = incoming; ending = ending })
  reads :
      {p : Side S} {incoming : List Bytes} {ending : Bool} (payload : Bytes)
      → p.read_done ≡ false
      → RelayStep send id
          (record { socket = relaying p; incoming = incoming; ending = ending })
          (record {
            socket = relaying (read_payload send id payload p);
            incoming = incoming;
            ending = ending;
          })
  reads_end :
      {p : Side S} {incoming : List Bytes} {ending : Bool}
      → p.read_done ≡ false
      → RelayStep send id
          (record { socket = relaying p; incoming = incoming; ending = ending })
          (record { socket = relaying (read_end send id p); incoming = incoming; ending = ending })
  -- The read loop behind the close of the connection: what it had buffered, then its error.
  reads_buffered :
      {p : Side S} {incoming : List Bytes} {ending : Bool} (payload : Bytes)
      → p.read_done ≡ false
      → RelayStep send id
          (record { socket = closing p; incoming = incoming; ending = ending })
          (record {
            socket = closing (read_payload send id payload p);
            incoming = incoming;
            ending = ending;
          })
  reads_closed :
      {p : Side S} {incoming : List Bytes} {ending : Bool}
      → p.read_done ≡ false
      → RelayStep send id
          (record { socket = closing p; incoming = incoming; ending = ending })
          (record { socket = closing (read_end send id p); incoming = incoming; ending = ending })

pub data RelayReach {S : Type 0} (send : ClientFrame → S → Option Bytes × S) (id : ℕ) (x : Relay S)
    : Relay S → Type 0 where
  stay : RelayReach send id x x
  next : {y z : Relay S} → RelayReach send id x y → RelayStep send id y z → RelayReach send id x z
