-- ===== src/Tunnel/Writer/Journey.antt =====
-- A response from the client's handler to the browser.
use muxbridge.Base.{ℕ, ◌≡◌, Bool, false, some, List, []}
use muxbridge.Headers.{from_proto, copy}
use muxbridge.Server.Response.{new_response_state}
use muxbridge.Server.Relay.{Writer, awaiting, returned, complete, Exchange, Reach}
use muxbridge.Server.Relay.Frames.{joined, fresh_writer}
use muxbridge.Server.Relay.Delivery.{complete_response}
use muxbridge.Tunnel.Writer.{Call, returns, serve_request}
use muxbridge.Tunnel.Writer.Frames.{logging, written, start_sent, serve_request_lem}

-- The request stands at the server, and the client's handler has run on it.
abbrev pub served : ℕ → List Call → List Bool → Exchange
served id handler failures = record {
  relay = awaiting new_response_state (fresh_writer failures);
  incoming = (serve_request logging id handler returns []).stream;
  gone = false;
}

-- What a handler answers is what the browser gets: where the server's handler returns with a complete
-- response to a request that the client's handler served, the browser has that handler's status, its
-- headers less what must not be forwarded, and the bytes it wrote, whatever the order of events in
-- between.
pub browser_receives :
    (id : ℕ) (handler : List Call) (failures : List Bool) (x : Exchange) (w : Writer)
    → Reach (served id handler failures) x
    → x.relay ≡ returned complete w
    → (w.status ≡ some (start_sent id [] handler).status_code)
      × (w.header ≡ copy [] (from_proto (start_sent id [] handler).headers))
      × (w.body ≡ joined (written handler))
browser_receives id handler failures x w r e =
    complete_response (start_sent id [] handler) (written handler) failures x w
      (rw (serve_request_lem id handler) at r) e
