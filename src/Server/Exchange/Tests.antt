-- ===== src/Server/Exchange/Tests.antt =====
-- A session with one request in flight.
use muxbridge.Base.{◌≡◌, refl, false, some, [], ◌∷◌, codes, arith, nat_eq, lookup, insert}
use muxbridge.Wire.{ClientFrame, response_body}
use muxbridge.Server.Response.{ResponseState, new_response_state, send_or_done}
use muxbridge.Server.Session.{Session, get, has}
use muxbridge.Server.Admission.{new_session}
use muxbridge.Server.Exchange.{handle_client_frame, to_response, keep_response, receive_frame}
use muxbridge.Server.Exchange.Frames.{IsUntouched, handle_client_frame-IsUntouched}

abbrev busy : ResponseState → Session
unfolding new_session
busy r = record (new_session 1 (codes "a.example.com") (codes "demo")) {
  inflight = 7 ∷ [];
  responses = (7, r) ∷ [];
}

abbrev chunk_frame : ClientFrame
chunk_frame = response_body 7 (codes "hi")

abbrev before : Session
unfolding new_response_state
before = busy new_response_state

abbrev behind : Session
unfolding new_response_state
behind = busy (record new_response_state { body = codes "hi" ∷ [] })

chunk-behind : handle_client_frame false chunk_frame before ≡ some behind
unfolding handle_client_frame to_response keep_response receive_frame send_or_done get has
    new_session new_response_state insert lookup
chunk-behind = refl

handle_client_frame-IsUntouched_example : IsUntouched 8 before behind
handle_client_frame-IsUntouched_example =
    handle_client_frame-IsUntouched false chunk_frame 8 before behind chunk-behind (omega arith)
