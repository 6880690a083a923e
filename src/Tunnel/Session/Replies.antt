-- ===== src/Tunnel/Session/Replies.antt =====
-- The frames that a session puts on the stream.
use muxbridge.Base.{
  ℕ, ◌≡◌, ◌≢◌, refl, sym, ap, ◌∙◌, subst, Bool, Option, none, some, some_inj, List, [], ◌∷◌, ◌++◌,
  arith, Bytes, append_assoc, append-nil, if◌then◌else◌, nat_eq, Option-cases, inl, inr, ◌⊎◌,
}
use muxbridge.Wire.{ClientFrame, ServerFrame, request_start, ping, pong, register, response_error}
use muxbridge.Tunnel.Connection.{Config}
use muxbridge.Tunnel.Writer.Frames.{logging}
use muxbridge.Tunnel.Dispatch.{
  is_websocket_upgrade, Http, refusal, Loop, Turn, goes_on, waits, ends_with, begin_request,
  begin_websocket, put_channel, put_request, on_request, dispatch_ws_inbound, get_ws_inbound,
  close_ws_inbound, answer_ping, write_done, write_body, dispatch, end_request,
}
use muxbridge.Tunnel.Session.{
  Ended, end_session, Event, receives, handler_sends, handler_reads, handler_ends, takes_payload,
  socket_ends, take_payload, on_event, run_loop, finish_loop, registered, run_session,
}

module _ (http : Http) where
  -- The loop's own frames: a pong for a ping, and an error for a request that is not valid.
  abbrev pub reply : ServerFrame → List ClientFrame
  reply (request_start m) =
      if is_websocket_upgrade m.headers
      then []
      else (elim (refusal http m) [ none ↦ [] | some e ↦ response_error m.request_id e ∷ [] ])
  reply (ping t) = pong t ∷ []
  reply _ = []

  abbrev pub replies : List Event → List ClientFrame
  replies [] = []
  replies (receives drop context frame ∷ rest) = reply frame ++ replies rest
  replies (handler_sends frame ∷ rest) = frame ∷ replies rest
  replies (_ ∷ rest) = replies rest

  abbrev Log : Type 0
  Log = Loop (List ClientFrame)

  dispatch-stream :
      (drop : Bool) (context : Option Bytes) (frame : ServerFrame) (l l' : Log)
      → dispatch logging http drop context frame l ≡ goes_on l'
      → l'.stream ≡ l.stream ++ reply frame
  unfolding dispatch begin_websocket begin_request put_channel put_request on_request write_body
      write_done get_ws_inbound close_ws_inbound dispatch_ws_inbound answer_ping
  dispatch-stream drop context frame l l' g = ground (arith, append-nil l.stream)

  -- The loop ends on a frame only where the context is done.
  dispatch-ends :
      (drop : Bool) (context : Option Bytes) (frame : ServerFrame) (e : Bytes) (l l' : Log)
      → dispatch logging http drop context frame l ≡ ends_with e l'
      → (l'.stream ≡ l.stream) × (context ≢ none)
  unfolding dispatch begin_websocket begin_request put_channel put_request on_request write_body
      write_done get_ws_inbound close_ws_inbound dispatch_ws_inbound answer_ping
  dispatch-ends drop context frame e l l' g = ground arith

  -- What one event adds to the stream.
  abbrev added : Event → List ClientFrame
  added x = replies (x ∷ [])

  take_payload-stream : (id : ℕ) (l : Log) → (take_payload logging http id l).stream ≡ l.stream
  unfolding take_payload
  take_payload-stream id l = ground arith

  on_event-stream :
      (x : Event) (l l' : Log)
      → on_event logging http x l ≡ goes_on l'
      → l'.stream ≡ l.stream ++ added x
  unfolding on_event on_request put_request end_request
  on_event-stream (receives drop context frame) l l' g =
      dispatch-stream drop context frame l l' g
      ∙ ap (λ y. l.stream ++ y) (sym (append-nil (reply frame)))
  on_event-stream (handler_sends frame) l l' g = ground arith
  on_event-stream (handler_reads id) l l' g = ground (arith, append-nil l.stream)
  on_event-stream (handler_ends id) l l' g = ground (arith, append-nil l.stream)
  on_event-stream (takes_payload id) l l' g =
      ground (arith, append-nil l.stream, take_payload-stream id l)
  on_event-stream (socket_ends id) l l' g = ground (arith, append-nil l.stream)

  replies-cons : (x : Event) (xs : List Event) → replies (x ∷ xs) ≡ added x ++ replies xs
  replies-cons (receives drop context frame) xs =
      ap (λ y. y ++ replies xs) (sym (append-nil (reply frame)))
  replies-cons (handler_sends frame) xs = refl
  replies-cons (handler_reads id) xs = refl
  replies-cons (handler_ends id) xs = refl
  replies-cons (takes_payload id) xs = refl
  replies-cons (socket_ends id) xs = refl

  -- The context is not done at any event.
  abbrev pub IsLive : List Event → Type 0
  IsLive [] = Unit
  IsLive (receives drop context frame ∷ rest) = (context ≡ none) × IsLive rest
  IsLive (_ ∷ rest) = IsLive rest

  IsLive-tail : (x : Event) (xs : List Event) → IsLive (x ∷ xs) → IsLive xs
  IsLive-tail (receives drop context frame) xs h = h.1
  IsLive-tail (handler_sends frame) xs h = h
  IsLive-tail (handler_reads id) xs h = h
  IsLive-tail (handler_ends id) xs h = h
  IsLive-tail (takes_payload id) xs h = h
  IsLive-tail (socket_ends id) xs h = h

  on_event-ends :
      (x : Event) (xs : List Event) (e : Bytes) (l l' : Log)
      → on_event logging http x l ≡ ends_with e l'
      → (l'.stream ≡ l.stream) × (IsLive (x ∷ xs) → ⊥)
  unfolding on_event
  on_event-ends (receives drop context frame) xs e l l' g =
      let (same_, done) = dispatch-ends drop context frame e l l' g in (same_, λ h. done h.0)
  on_event-ends (handler_sends frame) xs e l l' g = cc
  on_event-ends (handler_reads id) xs e l l' g = cc
  on_event-ends (handler_ends id) xs e l l' g = cc
  on_event-ends (takes_payload id) xs e l l' g = cc
  on_event-ends (socket_ends id) xs e l l' g = cc

  abbrev Written : Log → Log → List Event → Type 0
  Written l l' xs =
      (rest : List ClientFrame) × (l'.stream ++ rest ≡ l.stream ++ replies xs)
      × (IsLive xs → rest ≡ [])

  Turn-cases :
      (t : Turn (List ClientFrame))
      → ((l : Log) × (t ≡ goes_on l))
        ⊎ ((t ≡ waits) ⊎ ((e : Bytes) × (l : Log) × (t ≡ ends_with e l)))
  Turn-cases (goes_on l) = inl (l, refl)
  Turn-cases waits = inr (inl refl)
  Turn-cases (ends_with e l) = inr (inr (e, l, refl))

  run_loop-Written :
      (xs : List Event) (stop result : Option Bytes) (l l' : Log)
      → run_loop logging http xs stop l ≡ some (result, l')
      → Written l l' xs
  unfolding run_loop
  run_loop-Written [] stop result l l' g = ([], ground (arith), λ _. refl)
  run_loop-Written (x ∷ xs) stop result l l' g = elim (Turn-cases (on_event logging http x l)) [
    | inl (m, t) ↦
        let (rest, e, live) = run_loop-Written xs stop result m l' (rw (t, run_loop) at g) in
        (
          rest,
          e
              ∙ ap (λ y. y ++ replies xs) (on_event-stream x l m t)
              ∙ append_assoc l.stream (added x) (replies xs)
              ∙ ap (λ y. l.stream ++ y) (sym (replies-cons x xs)),
          λ h. live (IsLive-tail x xs h),
        )
    | inr (inl t) ↦ cc (rw (t, run_loop) at g)
    | inr (inr (e, m, t)) ↦
        let (same_, over) = on_event-ends x xs e l m t in
        (replies (x ∷ xs), cc (rw (t, run_loop) at g, same_), λ h. absurd (over h))
  ]

-- A session that runs to its end, on a stream that takes every frame, puts a registration with its
-- tunnel and token on the stream first, and behind it, in the order of the events, a pong with its own
-- time for each ping, an error for each request that is not valid, and the frames of the handlers, with
-- nothing left out but what comes behind a context that is done.
pub session_frames :
    (http : Http) (cfg : Config) (events : List Event) (stop : Option Bytes)
    (s : Ended (List ClientFrame))
    → run_session logging http cfg events stop [] ≡ some s
    → (rest : List ClientFrame) × (s.loop.stream ++ rest
        ≡ register cfg.tunnel_id cfg.token ∷ replies http events)
      × (IsLive http events → rest ≡ [])
unfolding run_session registered finish_loop end_session
session_frames http cfg events stop s g =
    let first : Loop (List ClientFrame) = record {
      inflight = [];
      ws_inbound = [];
      channels = [];
      stream = register cfg.tunnel_id cfg.token ∷ [];
    } in
    elim (Option-cases (run_loop logging http events stop first)) [
      | inl waits_ ↦ cc (rw waits_ at g)
      | inr ((result, l), r) ↦
          let (rest, e, live) = run_loop-Written http events stop result first l r in
          subst
            (λ x.
              (rest : List ClientFrame) × (x ++ rest
                ≡ register cfg.tunnel_id cfg.token ∷ replies http events)
              × (IsLive http events → rest ≡ []))
            (ap (λ x. x.loop.stream) (some_inj (rw r at g))) (rest, e, live)
    ]
