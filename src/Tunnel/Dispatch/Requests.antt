-- ===== src/Tunnel/Dispatch/Requests.antt =====
-- What the loop makes of the frames of a request.
use muxbridge.Base.{
  ℕ, ◌≡◌, ◌≢◌, refl, ◌∙◌, Bool, true, false, Option, none, some, arith, Bytes, codes, lookup,
  lookup-insert, nat_eq, ==_iff, Option-cases, inl, inr,
}
use muxbridge.Wire.{
  RequestStart, ClientFrame, ServerFrame, request_start, request_body, request_end, cancel_request,
  ping,
}
use muxbridge.Tunnel.Dispatch.{
  Pipe, pipe_eof, pipe_error, open_pipe, pipe_write, close_write, Http, refusal, handler_request,
  Inflight, Loop, goes_on, put_request, put_channel, begin_websocket, begin_request, on_request,
  write_done, write_body, dispatch_ws_inbound, close_ws_inbound, answer_ping, dispatch,
}

-- The request that a frame of the server names.
abbrev pub Concerns : ℕ → ServerFrame → Type 0
Concerns id (request_start m) = m.request_id ≡ id
Concerns id (request_body j chunk) = j ≡ id
Concerns id (request_end j) = j ≡ id
Concerns id (cancel_request j) = j ≡ id
Concerns id (ServerFrame.ws_data j payload) = j ≡ id
Concerns id (ServerFrame.ws_close j) = j ≡ id
Concerns id (ping t) = ⊥
Concerns id ServerFrame.absent = ⊥

module _ {S : Type 0} (send : ClientFrame → S → Option Bytes × S) (http : Http) where
  on_request-lookup :
      (j id : ℕ) (f : Inflight → Inflight) (l : Loop S)
      → j ≢ id
      → lookup id (on_request send http j f l).inflight ≡ lookup id l.inflight
  unfolding on_request put_request
  on_request-lookup j id f l n = elim (Option-cases (lookup j l.inflight)) [
    | inl g ↦ rw (g, on_request) refl
    | inr (i, g) ↦
        rw (g, on_request) (ground (arith, ==_iff j id, lookup-insert j id (f i) l.inflight))
  ]

  begin_request-lookup :
      (m : RequestStart) (id : ℕ) (l : Loop S)
      → m.request_id ≢ id
      → lookup id (begin_request send http m l).inflight ≡ lookup id l.inflight
  unfolding begin_request put_request
  begin_request-lookup m id l n = elim (Option-cases (refusal http m)) [
    | inl g ↦
        rw (g, begin_request)
          (ground (
            arith,
            ==_iff m.request_id id,
            lookup-insert m.request_id id
                (record { request = handler_request http m; canceled = false; body = open_pipe })
                l.inflight,
          ))
    | inr (e, g) ↦ rw (g, begin_request) refl
  ]

  begin_websocket-lookup :
      (j id : ℕ) (l : Loop S)
      → lookup id (begin_websocket send http j l).inflight ≡ lookup id l.inflight
  unfolding begin_websocket put_channel
  begin_websocket-lookup j id l = refl

  same_inflight :
      (id : ℕ) (l l' : Loop S)
      → goes_on l ≡ goes_on l'
      → lookup id l'.inflight ≡ lookup id l.inflight
  same_inflight id l l' e = ground arith

  write_done-lookup :
      (j : ℕ) (i : Inflight) (p : Option Pipe) (id : ℕ) (l l' : Loop S)
      → j ≢ id
      → write_done send http j i p l ≡ goes_on l'
      → lookup id l'.inflight ≡ lookup id l.inflight
  unfolding write_done put_request
  write_done-lookup j i none id l l' n e = cc
  write_done-lookup j i (some p) id l l' n e =
      same_inflight id _ l' e
      ∙ ground (arith, ==_iff j id, lookup-insert j id (record i { body = p }) l.inflight)

  write_body-lookup :
      (j : ℕ) (chunk : Bytes) (o : Option Inflight) (id : ℕ) (l l' : Loop S)
      → j ≢ id
      → write_body send http j chunk o l ≡ goes_on l'
      → lookup id l'.inflight ≡ lookup id l.inflight
  unfolding write_body
  write_body-lookup j chunk none id l l' n e = same_inflight id l l' e
  write_body-lookup j chunk (some i) id l l' n e =
      write_done-lookup j i (pipe_write chunk i.body) id l l' n e

  -- A frame of another request leaves a request, its body and its cancellation as they are.
  pub dispatch-lookup :
      (drop : Bool) (context : Option Bytes) (frame : ServerFrame) (id : ℕ) (l l' : Loop S)
      → dispatch send http drop context frame l ≡ goes_on l'
      → ¬ Concerns id frame
      → lookup id l'.inflight ≡ lookup id l.inflight
  unfolding dispatch dispatch_ws_inbound close_ws_inbound put_channel answer_ping
  dispatch-lookup drop context (request_start m) id l l' e n =
      ground (arith, begin_request-lookup m id l, begin_websocket-lookup m.request_id id l)
  dispatch-lookup drop context (request_body j chunk) id l l' e n =
      write_body-lookup j chunk (lookup j l.inflight) id l l' n e
  dispatch-lookup drop context (request_end j) id l l' e n =
      same_inflight id _ l' e
      ∙ on_request-lookup j id (λ i. record i { body = close_write pipe_eof i.body }) l n
  dispatch-lookup drop context (cancel_request j) id l l' e n =
      same_inflight id _ l' e
      ∙ on_request-lookup j id
          (λ i. record i {
            canceled = true;
            body = close_write (pipe_error (codes "context canceled")) i.body;
          })
          l n
  dispatch-lookup drop context (ServerFrame.ws_data j payload) id l l' e n = ground arith
  dispatch-lookup drop context (ServerFrame.ws_close j) id l l' e n = ground arith
  dispatch-lookup drop context (ping t) id l l' e n = ground arith
  dispatch-lookup drop context ServerFrame.absent id l l' e n = ground arith
