-- ===== src/Server/Session.antt =====
-- server/server.go, `session`: the requests in flight on one tunnel. The maps `inflight` and `wsMap`
-- hold pointers; an object is known by its request id, and stays in `responses` or `sockets` when
-- its id has left the map, since the request's handler still holds it.
use muxbridge.Base.{
  ℕ, Bool, true, false, ◌&&◌, ◌||◌, Option, none, some, List, [], ◌∷◌, ltb, leb, ◌==◌,
  if◌then◌else◌, length, Bytes, lookup, insert, nat_eq,
}
use muxbridge.Wire.{ServerFrame}
use muxbridge.Server.Response.{ResponseState, WsState, new_response_state, fail, close_ws}

pub record Session : Type 0 where
  pub id : ℕ
  pub public_host : Bytes
  pub username : Bytes
  pub outbound : List ServerFrame
  pub done : Bool
  pub once : Bool
  pub inflight : List ℕ
  pub ws_map : List ℕ
  pub responses : List (ℕ × ResponseState)
  pub sockets : List (ℕ × WsState)

unfoldable pub has : ℕ → List ℕ → Bool
has id [] = false
has id (j ∷ ids) = j == id || has id ids

-- `m[id] = p` in a map that is known by its keys.
unfoldable pub include : ℕ → List ℕ → List ℕ
unfolding has
include id ids = if has id ids then ids else id ∷ ids

-- `delete(m, id)`
unfoldable pub remove : ℕ → List ℕ → List ℕ
remove id [] = []
remove id (j ∷ ids) = if j == id then remove id ids else j ∷ remove id ids

unfoldable pub put : ℕ → ResponseState → Session → Session
put id rs s = record s { inflight = include id s.inflight; responses = insert id rs s.responses }

unfoldable pub try_start : ℕ → ℕ → Session → Option Session
unfolding put new_response_state
try_start id max_inflight s =
    if ltb 0 max_inflight && leb max_inflight (length s.inflight)
    then none
    else some (put id new_response_state s)

unfoldable pub get : ℕ → Session → Option ResponseState
get id s = if has id s.inflight then lookup id s.responses else none

unfoldable pub del : ℕ → Session → Session × Bool
del id s =
    if has id s.inflight then (record s { inflight = remove id s.inflight }, true) else (s, false)

unfoldable pub put_ws : ℕ → WsState → Session → Session
put_ws id ws s = record s { ws_map = include id s.ws_map; sockets = insert id ws s.sockets }

unfoldable pub get_ws : ℕ → Session → Option WsState
get_ws id s = if has id s.ws_map then lookup id s.sockets else none

unfoldable pub del_ws : ℕ → Session → Session
del_ws id s = record s { ws_map = remove id s.ws_map }

unfoldable pub fail_each :
    Option Bytes → List ℕ → List (ℕ × ResponseState) → List (ℕ × ResponseState)
fail_each e ids [] = []
fail_each e ids ((j, rs) ∷ m) = (j, if has j ids then fail e rs else rs) ∷ fail_each e ids m

close_each : List ℕ → List (ℕ × WsState) → List (ℕ × WsState)
close_each ids [] = []
close_each ids ((j, ws) ∷ m) = (j, if has j ids then close_ws ws else ws) ∷ close_each ids m

-- The session and the number of requests that were in flight.
unfoldable pub fail_all : Option Bytes → Session → Session × ℕ
unfolding fail_each close_each
fail_all e s = (
  record s {
    inflight = [];
    ws_map = [];
    responses = fail_each e s.inflight s.responses;
    sockets = close_each s.ws_map s.sockets;
  },
  length s.inflight,
)

unfoldable pub shutdown : Option Bytes → Session → Session × ℕ
unfolding fail_all
shutdown e s = if s.once then (s, 0) else fail_all e (record s { once = true; done = true })

abbrev pub session_outbound_queue_depth : ℕ
session_outbound_queue_depth = 16
