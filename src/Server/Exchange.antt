-- ===== src/Server/Exchange.antt =====
-- server/server.go, frames between a session and its requests: `handleClientFrame`, `sendFrame`,
-- `sendFrameCtx`, `cancelRequest`, and the heartbeat of `Connect`.
pub mod Frames
pub mod Tests
use muxbridge.Base.{
  ℕ, ◌+◌, ◌<◌, ◌≡◌, Bool, true, false, not, ◌&&◌, Option, none, some, List, [], ◌∷◌, ◌++◌, ltb,
  ◌||◌, if◌then◌else◌, length, Bytes, insert, nat_eq,
}
use muxbridge.Wire.{
  ClientFrame, ServerFrame, response_start, response_body, response_end, response_error, register,
  pong, cancel_request, ping,
}
use muxbridge.Server.Response.{
  ResponseState, WsState, finish, fail, close_ws, send_or_done, response_body_queue_depth,
  ws_inbound_queue_depth,
}
use muxbridge.Server.Session.{Session, get, get_ws, session_outbound_queue_depth}

-- What a response frame does to the request's object. `none`: the receive loop waits.
unfoldable pub receive_frame : Bool → ClientFrame → ResponseState → Option ResponseState
receive_frame drop (response_start m) r = elim (send_or_done 1 drop r.done m r.start) [
  | none ↦ none
  | some queue ↦ some (record r { start = queue })
]
receive_frame drop (response_body id chunk) r =
    elim (send_or_done response_body_queue_depth drop r.done chunk r.body) [
      | none ↦ none
      | some queue ↦ some (record r { body = queue })
    ]
receive_frame drop (response_end id) r = some (finish r)
receive_frame drop (response_error id message) r = some (fail (some message) r)
receive_frame drop _ r = some r

keep_response : ℕ → Session → Option ResponseState → Option Session
keep_response id s none = none
keep_response id s (some r) = some (record s { responses = insert id r s.responses })

-- A frame for the request `id`; one for a request that is not in flight is ignored.
to_response : Bool → ℕ → ClientFrame → Session → Option Session
unfolding keep_response
to_response drop id frame s = elim (get id s) [
  | none ↦ some s
  | some r ↦ keep_response id s (receive_frame drop frame r)
]

unfoldable pub receive_ws_data : Bool → Bytes → WsState → Option WsState
receive_ws_data drop payload ws =
    elim (send_or_done ws_inbound_queue_depth drop ws.done payload ws.from_client) [
      | none ↦ none
      | some queue ↦ some (record ws { from_client = queue })
    ]

keep_socket : ℕ → Session → Option WsState → Option Session
keep_socket id s none = none
keep_socket id s (some ws) = some (record s { sockets = insert id ws s.sockets })

-- `drop` is the pick of a `select` that finds both its cases ready. `none` is a loop that waits: the
-- queue is full and the request's `done` is open.
unfoldable pub handle_client_frame : Bool → ClientFrame → Session → Option Session
unfolding to_response receive_ws_data keep_socket
handle_client_frame drop (response_start m) s = to_response drop m.request_id (response_start m) s
handle_client_frame drop (response_body id chunk) s = to_response drop id (response_body id chunk) s
handle_client_frame drop (response_end id) s = to_response drop id (response_end id) s
handle_client_frame drop (response_error id message) s =
    to_response drop id (response_error id message) s
handle_client_frame drop (ClientFrame.ws_data id payload) s = elim (get_ws id s) [
  | none ↦ some s
  | some ws ↦ keep_socket id s (receive_ws_data drop payload ws)
]
handle_client_frame drop (ClientFrame.ws_close id) s = elim (get_ws id s) [
  | none ↦ some s
  | some ws ↦ keep_socket id s (some (close_ws ws))
]
handle_client_frame drop (pong t) s = some s
handle_client_frame drop (register tunnel_id token) s = some s
handle_client_frame drop ClientFrame.absent s = some s

-- The case of a `select` that Go picks where several are ready.
pub data Prefer : Type 0 where
  prefer_done prefer_context prefer_queue : Prefer

pub data SendError : Type 0 where
  session_closed : SendError
  context_error : Bytes → SendError

pub data Sent : Type 0 where
  accepted : Session → Sent
  refused : SendError → Sent
  waits : Sent

is_done_first : Prefer → Bool
is_done_first prefer_done = true
is_done_first prefer_context = false
is_done_first prefer_queue = false

has_room : Session → Bool
has_room s = ltb (length s.outbound) session_outbound_queue_depth

enqueue : ServerFrame → Session → Session
enqueue frame s = record s { outbound = s.outbound ++ frame ∷ [] }

unfoldable pub send_frame : Prefer → ServerFrame → Session → Sent
unfolding is_done_first has_room enqueue
send_frame prefer frame s =
    if s.done && (is_done_first prefer || not (has_room s))
    then refused session_closed
    else if has_room s
    then accepted (enqueue frame s)
    else waits

-- The context's error, once it is done.
unfoldable pub send_frame_ctx : Prefer → Option Bytes → ServerFrame → Session → Sent
unfolding has_room enqueue
send_frame_ctx prefer_done (some e) frame s =
    if s.done then refused session_closed else refused (context_error e)
send_frame_ctx prefer_done none frame s =
    if s.done
    then refused session_closed
    else if has_room s
    then accepted (enqueue frame s)
    else waits
send_frame_ctx prefer_context (some e) frame s = refused (context_error e)
send_frame_ctx prefer_context none frame s =
    if s.done
    then refused session_closed
    else if has_room s
    then accepted (enqueue frame s)
    else waits
send_frame_ctx prefer_queue context frame s =
    if has_room s
    then accepted (enqueue frame s)
    else if s.done
    then refused session_closed
    else (elim context [ none ↦ waits | some e ↦ refused (context_error e) ])

-- A send that is dropped where the session is closed or its queue is full.
unfoldable pub offer_frame : Prefer → ServerFrame → Session → Session
unfolding is_done_first has_room enqueue
offer_frame prefer frame s =
    if has_room s && not (s.done && is_done_first prefer) then enqueue frame s else s

unfoldable pub cancel : Prefer → ℕ → Session → Session
unfolding offer_frame
cancel prefer id s = offer_frame prefer (cancel_request id) s

-- One tick of the heartbeat.
unfoldable pub heartbeat_tick : Prefer → ℕ → Session → Session
unfolding offer_frame
heartbeat_tick prefer now s = offer_frame prefer (ping now) s
