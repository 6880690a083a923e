-- ===== src/Server/Exchange/Frames.antt =====
-- What a client's frame may change.
use muxbridge.Base.{
  ℕ, ◌≡◌, ◌≢◌, Bool, Option, none, some, arith, lookup-insert, nat_eq, Option-cases, inl, inr,
}
use muxbridge.Wire.{
  ClientFrame, response_start, response_body, response_end, response_error, register, pong,
}
use muxbridge.Server.Response.{ResponseState, WsState, close_ws}
use muxbridge.Server.Session.{Session, get, get_ws}
use muxbridge.Server.Exchange.{
  handle_client_frame, to_response, keep_response, receive_frame, receive_ws_data, keep_socket,
}

-- The request that a frame names.
abbrev pub Names : ℕ → ClientFrame → Type 0
Names id (response_start m) = m.request_id ≡ id
Names id (response_body j chunk) = j ≡ id
Names id (response_end j) = j ≡ id
Names id (response_error j message) = j ≡ id
Names id (ClientFrame.ws_data j payload) = j ≡ id
Names id (ClientFrame.ws_close j) = j ≡ id
Names id (pong t) = ⊥
Names id (register tunnel_id token) = ⊥
Names id ClientFrame.absent = ⊥

-- Two states of a session that differ at most in the objects of requests other than `id`.
pub record IsUntouched (id : ℕ) (s s' : Session) : Type 0 where
  pub inflight : s'.inflight ≡ s.inflight
  pub ws_map : s'.ws_map ≡ s.ws_map
  pub outbound : s'.outbound ≡ s.outbound
  pub done : s'.done ≡ s.done
  pub response : get id s' ≡ get id s
  pub socket : get_ws id s' ≡ get_ws id s

keep_response-IsUntouched :
    (j id : ℕ) (s s' : Session) (r : Option ResponseState)
    → keep_response j s r ≡ some s'
    → j ≢ id
    → IsUntouched id s s'
unfolding keep_response get get_ws
keep_response-IsUntouched j id s s' none e n = cc
keep_response-IsUntouched j id s s' (some r) e n = ground (arith, lookup-insert j id r s.responses)

keep_socket-IsUntouched :
    (j id : ℕ) (s s' : Session) (ws : Option WsState)
    → keep_socket j s ws ≡ some s'
    → j ≢ id
    → IsUntouched id s s'
unfolding keep_socket get get_ws
keep_socket-IsUntouched j id s s' none e n = cc
keep_socket-IsUntouched j id s s' (some ws) e n = ground (arith, lookup-insert j id ws s.sockets)

IsUntouched-refl : (id : ℕ) (s s' : Session) → some s ≡ some s' → IsUntouched id s s'
IsUntouched-refl id s s' e = ground arith

to_response-IsUntouched :
    (drop : Bool) (j id : ℕ) (frame : ClientFrame) (s s' : Session)
    → to_response drop j frame s ≡ some s'
    → j ≢ id
    → IsUntouched id s s'
unfolding to_response
to_response-IsUntouched drop j id frame s s' e n = elim (Option-cases (get j s)) [
  | inl g ↦ IsUntouched-refl id s s' (rw (g, to_response) at e)
  | inr (r, g) ↦
      keep_response-IsUntouched j id s s' (receive_frame drop frame r) (rw (g, to_response) at e) n
]

-- A frame leaves the tables, the outbound queue and the objects of every request that it does not
-- name as they are, on every branch.
pub handle_client_frame-IsUntouched :
    (drop : Bool) (frame : ClientFrame) (id : ℕ) (s s' : Session)
    → handle_client_frame drop frame s ≡ some s'
    → ¬ Names id frame
    → IsUntouched id s s'
unfolding handle_client_frame
handle_client_frame-IsUntouched drop (response_start m) id s s' e n =
    to_response-IsUntouched drop m.request_id id (response_start m) s s' e n
handle_client_frame-IsUntouched drop (response_body j chunk) id s s' e n =
    to_response-IsUntouched drop j id (response_body j chunk) s s' e n
handle_client_frame-IsUntouched drop (response_end j) id s s' e n =
    to_response-IsUntouched drop j id (response_end j) s s' e n
handle_client_frame-IsUntouched drop (response_error j message) id s s' e n =
    to_response-IsUntouched drop j id (response_error j message) s s' e n
handle_client_frame-IsUntouched drop (ClientFrame.ws_data j payload) id s s' e n =
    elim (Option-cases (get_ws j s)) [
      | inl g ↦ IsUntouched-refl id s s' (rw (g, handle_client_frame) at e)
      | inr (ws, g) ↦
          keep_socket-IsUntouched j id s s' (receive_ws_data drop payload ws)
            (rw (g, handle_client_frame) at e) n
    ]
handle_client_frame-IsUntouched drop (ClientFrame.ws_close j) id s s' e n =
    elim (Option-cases (get_ws j s)) [
      | inl g ↦ IsUntouched-refl id s s' (rw (g, handle_client_frame) at e)
      | inr (ws, g) ↦
          keep_socket-IsUntouched j id s s' (some (close_ws ws)) (rw (g, handle_client_frame) at e)
            n
    ]
handle_client_frame-IsUntouched drop (pong t) id s s' e n = IsUntouched-refl id s s' e
handle_client_frame-IsUntouched drop (register tunnel_id token) id s s' e n =
    IsUntouched-refl id s s' e
handle_client_frame-IsUntouched drop ClientFrame.absent id s s' e n = IsUntouched-refl id s s' e
