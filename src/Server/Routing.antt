-- ===== src/Server/Routing.antt =====
-- server/server.go, the tunnels of the server: the handshake and the end of `Connect`, and how
-- `ServeHTTP` and `serveWebSocket` find a request's tunnel and start the request on it.
pub mod Tunnels
pub mod Starts
pub mod Hosts
pub mod Reserved
pub mod Tests
use muxbridge.Base.{
  ℕ, Bool, true, false, Option, none, some, List, [], Bytes, codes, same, bytes_eq, nat_eq, lookup,
  if◌then◌else◌,
}
use muxbridge.Base.Result.{Result, ok, err}
use muxbridge.Base.Text.{to_lower}
use muxbridge.Hostnames.{normalize_host, subdomain}
use muxbridge.Headers.{Headers, header_get}
use muxbridge.Wire.{ClientFrame, register}
use muxbridge.Server.Response.{new_ws_state}
use muxbridge.Server.Session.{Session, put_ws}
use muxbridge.Server.State.{
  Server, InflightLimit, inflight_limit_none, inflight_limit_total, inflight_limit_per_session,
  has_public_host, get_session, put_session, remove_session, shut_session, try_start_request, store,
  err_session_closed,
}
use muxbridge.Server.Admission.{allocate_session, take_request_id}

-- The answers of the handshake that refuse a tunnel.
pub data ConnectError : Type 0 where
  not_register missing_token invalid_token : ConnectError

-- The token was found: the session is made and takes the route of its user's host.
unfoldable pub admit_user : Bytes → Server → Server × ℕ
admit_user username srv =
    let host = subdomain username srv.public_domain in
    let (srv', sid) = allocate_session host username srv in (put_session host sid srv', sid)

-- `Connect` up to its loops, on the stream's first frame.
unfoldable pub open_session : ClientFrame → Server → Result ConnectError (Server × ℕ)
open_session (register tunnel_id token) srv =
    if same token [] then err missing_token else (elim (lookup token srv.token_users) [
      | none ↦ err invalid_token
      | some username ↦ ok (admit_user username srv)
    ])
open_session _ srv = err not_register

-- The reason that the requests of an ended session get.
unfoldable pub shutdown_error : Option Bytes → Bytes
shutdown_error none = err_session_closed
shutdown_error (some e) = e

-- The end of `Connect`: `recv_err` is what its receive loop ended with, less the end of the stream.
unfoldable pub close_session : ℕ → Option Bytes → Server → Server
close_session sid recv_err srv = elim (lookup sid srv.objects) [
  | none ↦ srv
  | some s ↦
      remove_session s.public_host sid (shut_session sid (some (shutdown_error recv_err)) srv)
]

-- What becomes of a request before it is forwarded.
pub data Entry : Type 0 where
  not_found no_tunnel : Entry
  over_limit : InflightLimit → Entry
  started started_ws : ℕ → ℕ → Entry

-- `strings.EqualFold(r.Header.Get("Upgrade"), "websocket")`
unfoldable pub wants_websocket : Headers → Bool
wants_websocket h = same (to_lower (header_get (codes "Upgrade") h)) (codes "websocket")

-- `sess.putWS` on the session `sid`.
unfoldable pub put_socket : ℕ → ℕ → Server → Server
put_socket sid id srv = elim (lookup sid srv.objects) [
  | none ↦ srv
  | some s ↦ store sid (put_ws id new_ws_state s) srv
]

unfoldable pub entered : Bool → ℕ → ℕ → InflightLimit × Server → Entry × Server
entered ws sid id (inflight_limit_none, srv) =
    if ws then (started_ws sid id, put_socket sid id srv) else (started sid id, srv)
entered ws sid id (inflight_limit_per_session, srv) = (over_limit inflight_limit_per_session, srv)
entered ws sid id (inflight_limit_total, srv) = (over_limit inflight_limit_total, srv)

-- A request for a connected tunnel takes an id and a slot.
unfoldable pub start_on : Bool → ℕ → Server → Entry × Server
start_on ws sid srv =
    let (srv', id) = take_request_id srv in entered ws sid id (try_start_request sid id srv')

-- `ServeHTTP` up to `forwardRequest`, for the request's `Host` and header.
unfoldable pub serve_entry : Bytes → Headers → Server → Entry × Server
serve_entry raw_host h srv =
    let host = normalize_host raw_host in
    if has_public_host srv host
    then (elim (get_session host srv) [
      | none ↦ (no_tunnel, srv)
      | some sid ↦ start_on (wants_websocket h) sid srv
    ])
    else (not_found, srv)
