-- ===== src/Server/Response.antt =====
-- server/server.go, `responseState` and `wsState`: the channels between the session's receive loop
-- and the handler of one request. A buffered channel is the list of what it holds, oldest first.
use muxbridge.Base.{
  ℕ, Bool, true, false, not, ◌&&◌, Option, none, some, List, [], ◌∷◌, ◌++◌, ltb, if◌then◌else◌,
  length, Bytes,
}
use muxbridge.Wire.{ResponseStart}

abbrev pub response_body_queue_depth : ℕ
response_body_queue_depth = 4

abbrev pub ws_inbound_queue_depth : ℕ
ws_inbound_queue_depth = 4

pub record ResponseState : Type 0 where
  pub start : List ResponseStart
  pub body : List Bytes
  pub done : Bool
  pub err : List Bytes
  pub once : Bool

pub record WsState : Type 0 where
  pub from_client : List Bytes
  pub done : Bool
  pub once : Bool

unfoldable pub new_response_state : ResponseState
new_response_state = record { start = []; body = []; done = false; err = []; once = false }

unfoldable pub new_ws_state : WsState
new_ws_state = record { from_client = []; done = false; once = false }

-- `ws.close()`
unfoldable pub close_ws : WsState → WsState
close_ws ws = if ws.once then ws else record ws { once = true; done = true }

unfoldable pub finish : ResponseState → ResponseState
finish r = if r.once then r else record r { once = true; done = true }

-- The channel of errors holds one; a second is dropped.
offer_err : Option Bytes → List Bytes → List Bytes
offer_err none queue = queue
offer_err (some e) queue = if ltb (length queue) 1 then queue ++ e ∷ [] else queue

unfoldable pub fail : Option Bytes → ResponseState → ResponseState
unfolding offer_err
fail e r = if r.once then r else record r { once = true; done = true; err = offer_err e r.err }

-- A receive that does not block: the oldest element and the rest.
unfoldable pub receive {ℓ} : {A : Type ℓ} → List A → Option A × List A
receive [] = (none, [])
receive (x ∷ xs) = (some x, xs)

unfoldable pub consume_err : ResponseState → Option Bytes × ResponseState
unfolding receive
consume_err r = let (e, rest) = receive r.err in (e, record r { err = rest })

unfoldable pub consume_start : ResponseState → Option ResponseStart × ResponseState
unfolding receive
consume_start r = let (s, rest) = receive r.start in (s, record r { start = rest })

unfoldable pub consume_body : ResponseState → Option Bytes × ResponseState
unfolding receive
consume_body r = let (c, rest) = receive r.body in (c, record r { body = rest })

-- `select { case queue <- x: case <-done: }`. Where both can go on, Go picks one at random: `drop` is
-- that pick. `none` is a sender that waits.
unfoldable pub send_or_done {ℓ} : {A : Type ℓ} → ℕ → Bool → Bool → A → List A → Option (List A)
send_or_done depth drop done x queue =
    if ltb (length queue) depth && not (done && drop)
    then some (queue ++ x ∷ [])
    else if done
    then some queue
    else none
