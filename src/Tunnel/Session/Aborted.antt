-- ===== src/Tunnel/Session/Aborted.antt =====
-- What the end of a session leaves behind.
use muxbridge.Base.{
  ℕ, ◌≡◌, ◌≢◌, ◌↔◌, refl, ap, subst, Bool, true, Option, none, some, some_inj, List, [], ◌∷◌, ◌==◌,
  if◌then◌else◌, arith, Bytes, nat_eq, ==_iff, lookup, Bool-cases, inl, inr,
}
use muxbridge.Wire.{ClientFrame, register}
use muxbridge.Server.Session.{has}
use muxbridge.Tunnel.Connection.{Config}
use muxbridge.Tunnel.Dispatch.{Http, close_write, close_read, Inflight, Inbound, Loop}
use muxbridge.Tunnel.Session.{
  Connectivity, ready, shut_down, wait_for_conn_ready, abort, abort_all, close_channels, Ended,
  end_session, Event, run_loop, finish_loop, registered, run_session,
}

-- What a handler that holds the request finds of it: its context done, and neither side of its body
-- waiting any more; what it took of the body is what it was.
abbrev pub IsAborted : Inflight → Inflight → Type 0
IsAborted i j =
    (j.request ≡ i.request)
    × (j.body.taken ≡ i.body.taken)
    × (j.canceled ≡ true)
    × (j.body.write_end ≢ none)
    × (j.body.read_end ≢ none)

abort-IsAborted : (i : Inflight) → IsAborted i (abort i)
unfolding abort close_write close_read
abort-IsAborted i = ground arith

-- What becomes of the request that may be in flight under an id.
abbrev pub IsReleased : Option Inflight → Option Inflight → Type 0
IsReleased none o = o ≡ none
IsReleased (some i) o = (j : Inflight) × (o ≡ some j) × IsAborted i j

lookup-abort_all :
    (id : ℕ) (rs : List (ℕ × Inflight)) → IsReleased (lookup id rs) (lookup id (abort_all rs))
unfolding abort_all lookup
lookup-abort_all id [] = refl
lookup-abort_all id ((k, i) ∷ rs) = elim (Bool-cases (k == id)) [
  | inl e ↦ rw e (abort i, refl, abort-IsAborted i)
  | inr e ↦ rw e (lookup-abort_all id rs)
]

-- What becomes of a channel, which the session may still know.
abbrev pub IsShut : Bool → Option Inbound → Option Inbound → Type 0
IsShut known none o = o ≡ none
IsShut known (some ch) o =
    o ≡ some (record { queue = ch.queue; closed = if known then true else ch.closed })

lookup-close_channels :
    (ids : List ℕ) (id : ℕ) (chs : List (ℕ × Inbound))
    → IsShut (has id ids) (lookup id chs) (lookup id (close_channels ids chs))
unfolding close_channels lookup
lookup-close_channels ids id [] = refl
lookup-close_channels ids id ((k, ch) ∷ chs) = elim (Bool-cases (k == id)) [
  | inl e ↦
      rw (e, (==_iff k id).0 e)
        (elim (Bool-cases (has id ids)) [ inl known ↦ rw known refl | inr known ↦ rw known refl ])
  | inr e ↦ rw e (lookup-close_channels ids id chs)
]

abbrev pub opened : {S : Type 0} → S → Loop S
opened stream = record { inflight = []; ws_inbound = []; channels = []; stream = stream }

-- What holds of a session that has ended, by what it was when its loop was left.
abbrev pub IsEnd : {S : Type 0} → Loop S → Ended S → Type 0
IsEnd l s =
    (s.loop.inflight ≡ [])
    × ((id : ℕ) → IsReleased (lookup id l.inflight) (lookup id s.aborted))
    × ((id : ℕ) → IsShut (has id l.ws_inbound) (lookup id l.channels) (lookup id s.loop.channels))

end_session-IsEnd :
    {S : Type 0} (result : Option Bytes) (l : Loop S) → IsEnd l (end_session result l)
unfolding end_session
end_session-IsEnd result l = (
  refl,
  λ id. lookup-abort_all id l.inflight,
  λ id. lookup-close_channels l.ws_inbound id l.channels,
)

-- What holds of a session that has ended, by its registration: it failed, and nothing was in flight; or
-- the session has the result of its loop, and releases what the loop held.
abbrev pub IsOver :
    {S : Type 0}
    → (ClientFrame → S → Option Bytes × S)
    → Http
    → List Event
    → Option Bytes
    → Option Bytes × S
    → Ended S
    → Type 0
IsOver send http events stop (some e, stream) s = (s.result ≡ some e) × IsEnd (opened stream) s
IsOver {S} send http events stop (none, stream) s =
    (l : Loop S) × (run_loop send http events stop (opened stream) ≡ some (s.result, l)) × IsEnd l s

finish_loop-IsEnd :
    {S : Type 0} (send : ClientFrame → S → Option Bytes × S) (http : Http)
    (r : Option (Option Bytes × Loop S)) (s : Ended S)
    → finish_loop send http r ≡ some s
    → (l : Loop S) × (r ≡ some (s.result, l)) × IsEnd l s
unfolding finish_loop end_session
finish_loop-IsEnd send http none s g = cc
finish_loop-IsEnd send http (some (result, l)) s g = (
  l,
  ap (λ x. some (x.result, l)) (some_inj g),
  subst (IsEnd l) (some_inj g) (end_session-IsEnd result l),
)

registered-IsOver :
    {S : Type 0} (send : ClientFrame → S → Option Bytes × S) (http : Http) (events : List Event)
    (stop : Option Bytes) (r : Option Bytes × S) (s : Ended S)
    → registered send http events stop r ≡ some s
    → IsOver send http events stop r s
unfolding registered lookup
registered-IsOver send http events stop (some e, stream) s g =
    subst (IsOver send http events stop (some e, stream)) (some_inj g)
      (refl, (refl, λ id. refl, λ id. refl))
registered-IsOver send http events stop (none, stream) s g =
    finish_loop-IsEnd send http (run_loop send http events stop (opened stream)) s g

-- However a session ends, by an error of the registration, of the stream, of a send or of the context,
-- or by the edge's clean end: with its registration refused it holds no request and no channel; and
-- else no request stays in flight, each request that was in flight when the loop was left, and no other,
-- is released with its context canceled and both sides of its body closed, and each channel that the
-- loop still knew then is closed, with the payloads that it held.
pub run_session-IsOver :
    {S : Type 0} (send : ClientFrame → S → Option Bytes × S) (http : Http) (cfg : Config)
    (events : List Event) (stop : Option Bytes) (stream : S) (s : Ended S)
    → run_session send http cfg events stop stream ≡ some s
    → IsOver send http events stop (send (register cfg.tunnel_id cfg.token) stream) s
unfolding run_session
run_session-IsOver send http cfg events stop stream s g =
    registered-IsOver send http events stop (send (register cfg.tunnel_id cfg.token) stream) s g

-- The states before the first one that is `ready` or `shut_down`.
abbrev pub settled : List Connectivity → Option Connectivity
settled [] = none
settled (ready ∷ states) = some ready
settled (shut_down ∷ states) = some shut_down
settled (s ∷ states) = settled states

-- The wait for the connection succeeds exactly where the connection is ready at a state that it
-- reports, and was not shut down before.
pub wait_for_conn_ready_iff :
    (context : Option Bytes) (state : Connectivity) (later : List Connectivity)
    → (wait_for_conn_ready context state later ≡ none) ↔ (settled (state ∷ later) ≡ some ready)
unfolding wait_for_conn_ready
wait_for_conn_ready_iff context ready later = ground arith
wait_for_conn_ready_iff context shut_down later = ground arith
wait_for_conn_ready_iff context state [] = ground arith
wait_for_conn_ready_iff context state (s ∷ later) = wait_for_conn_ready_iff context s later
