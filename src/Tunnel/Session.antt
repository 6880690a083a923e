-- ===== src/Tunnel/Session.antt =====
-- tunnel/client.go, one session of the client: `waitForConnReady`, and `runSession` from the open stream
-- to its deferred end. `send` and `http` are those of `Dispatch`.
pub mod Replies
pub mod Aborted
pub mod Delivered
pub mod Tests
use muxbridge.Base.{
  ℕ, Bool, true, false, Option, none, some, List, [], ◌∷◌, ◌++◌, map, if◌then◌else◌, Bytes, codes,
  nat_eq, lookup, insert,
}
use muxbridge.Wire.{ClientFrame, ServerFrame, register}
use muxbridge.Server.Session.{has, remove}
use muxbridge.Tunnel.Connection.{Config}
use muxbridge.Tunnel.Dispatch.{
  Http, Pipe, pipe_error, close_write, close_read, Inflight, Inbound, Loop, Turn, goes_on, waits,
  ends_with, on_request, pipe_read, dispatch, end_request,
}

-- The states of a gRPC connection.
pub data Connectivity : Type 0 where
  idle connecting ready transient_failure shut_down : Connectivity

unfoldable pub state_name : Connectivity → Bytes
state_name idle = codes "IDLE"
state_name connecting = codes "CONNECTING"
state_name ready = codes "READY"
state_name transient_failure = codes "TRANSIENT_FAILURE"
state_name shut_down = codes "SHUTDOWN"

-- `WaitForStateChange` gave up in the state: the context's error, or one that names the state.
unfoldable pub not_ready : Option Bytes → Connectivity → Bytes
unfolding state_name
not_ready (some e) state = e
not_ready none state = codes "grpc connection did not become ready from state " ++ state_name state

-- `waitForConnReady`: the state at first, and the ones that the changes give until none comes; `none`
-- is success.
unfoldable pub wait_for_conn_ready : Option Bytes → Connectivity → List Connectivity → Option Bytes
unfolding not_ready
wait_for_conn_ready context ready later = none
wait_for_conn_ready context shut_down later =
    some (codes "grpc connection shut down before becoming ready")
wait_for_conn_ready context state [] = some (not_ready context state)
wait_for_conn_ready context state (s ∷ later) = wait_for_conn_ready context s later

abbrev pub session_ended : Bytes
session_ended = codes "tunnel session ended"

-- What the end of the session does to a request in flight.
unfoldable pub abort : Inflight → Inflight
abort i = record i {
  canceled = true;
  body = close_read (pipe_error session_ended) (close_write (pipe_error session_ended) i.body);
}

unfoldable pub abort_all : List (ℕ × Inflight) → List (ℕ × Inflight)
unfolding abort
abort_all [] = []
abort_all ((id, i) ∷ rest) = (id, abort i) ∷ abort_all rest

-- The channels that are still in the map are closed.
unfoldable pub close_channels : List ℕ → List (ℕ × Inbound) → List (ℕ × Inbound)
close_channels ids [] = []
close_channels ids ((id, ch) ∷ rest) =
    (id, if has id ids then record ch { closed = true } else ch) ∷ close_channels ids rest

-- The session's error, the requests that it aborted, which their handlers still hold, and its maps.
pub record Ended (S : Type 0) : Type 0 where
  pub result : Option Bytes
  pub aborted : List (ℕ × Inflight)
  pub loop : Loop S

unfoldable pub end_session : {S : Type 0} → Option Bytes → Loop S → Ended S
unfolding abort_all close_channels
end_session result l = record {
  result = result;
  aborted = abort_all l.inflight;
  loop = record l { inflight = []; channels = close_channels l.ws_inbound l.channels };
}

tail : List Bytes → List Bytes
tail [] = []
tail (x ∷ xs) = xs

-- What happens to the session: a frame of the server is received, with the pick of a `select` and the
-- context's error at that time; and what its handlers do beside the loop: they put frames on the
-- stream, read their bodies, end, and take payloads from their channels.
pub data Event : Type 0 where
  receives : Bool → Option Bytes → ServerFrame → Event
  handler_sends : ClientFrame → Event
  handler_reads handler_ends takes_payload socket_ends : ℕ → Event

module _ {S : Type 0} (send : ClientFrame → S → Option Bytes × S) (http : Http) where
  unfoldable pub take_payload : ℕ → Loop S → Loop S
  unfolding tail
  take_payload id l = elim (lookup id l.channels) [
    | none ↦ l
    | some ch ↦ record l { channels = insert id (record ch { queue = tail ch.queue }) l.channels }
  ]

  unfoldable pub on_event : Event → Loop S → Turn S
  unfolding take_payload pipe_read
  on_event (receives drop context frame) l = dispatch send http drop context frame l
  on_event (handler_sends frame) l = goes_on (record l { stream = (send frame l.stream).1 })
  on_event (handler_reads id) l =
      goes_on (on_request send http id (λ i. record i { body = pipe_read i.body }) l)
  on_event (handler_ends id) l = goes_on (end_request send http id l)
  on_event (takes_payload id) l = goes_on (take_payload id l)
  on_event (socket_ends id) l = goes_on (record l { ws_inbound = remove id l.ws_inbound })

  -- The loop, to its error or to the end of the stream, whose error is `stop` (none for `io.EOF`).
  -- `none`: a frame is received for a channel that is full or a body that is not read, where the loop
  -- waits: the frame's event comes behind the one that makes room for it.
  unfoldable pub run_loop : List Event → Option Bytes → Loop S → Option (Option Bytes × Loop S)
  run_loop [] stop l = some (stop, l)
  run_loop (x ∷ rest) stop l = elim (on_event x l) [
    | goes_on l' ↦ run_loop rest stop l'
    | waits ↦ none
    | ends_with e l' ↦ some (some e, l')
  ]

  unfoldable pub finish_loop : Option (Option Bytes × Loop S) → Option (Ended S)
  unfolding end_session
  finish_loop none = none
  finish_loop (some (result, l)) = some (end_session result l)

  unfoldable pub registered : List Event → Option Bytes → Option Bytes × S → Option (Ended S)
  unfolding run_loop finish_loop
  registered events stop (some e, stream) = some (record {
    result = some e;
    aborted = [];
    loop = record { inflight = []; ws_inbound = []; channels = []; stream = stream };
  })
  registered events stop (none, stream) = finish_loop (
      run_loop events stop
        (record { inflight = []; ws_inbound = []; channels = []; stream = stream }))

  -- `runSession` behind `Connect`.
  unfoldable pub run_session : Config → List Event → Option Bytes → S → Option (Ended S)
  unfolding registered
  run_session cfg events stop stream =
      registered events stop (send (register cfg.tunnel_id cfg.token) stream)
