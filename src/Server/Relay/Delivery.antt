-- ===== src/Server/Relay/Delivery.antt =====
-- What the browser receives.
use muxbridge.Base.{
  none, subst, ℕ, ◌≡◌, inl, inr, refl, ap, Bool, true, false, some, List, [], ◌∷◌, arith, Bytes,
}
use muxbridge.Headers.{from_proto, copy}
use muxbridge.Wire.{ResponseStart, ClientFrame, response_body, response_end}
use muxbridge.Server.Response.{ResponseState, new_response_state, finish, send_or_done}
use muxbridge.Server.Exchange.{receive_frame}
use muxbridge.Server.Relay.{
  Writer, write, write_header, complete, awaiting, streaming, returned, pick_start, pick_body,
  pick_done, start_response, await_start, write_chunk, settle, drain, after_chunk, stream_body,
  relay_step, deliver, Exchange, receives, picks, Reach, stay, next,
}
use muxbridge.Server.Relay.Frames.{joined, chunk_frames, response_frames, fresh_writer}
use muxbridge.Server.Relay.Holds.{Holds, Step-Holds}

-- A request just forwarded, with the client's whole response still to come.
abbrev pub forwarded : ResponseStart → List Bytes → List Bool → Exchange
forwarded m cs failures = record {
  relay = awaiting new_response_state (fresh_writer failures);
  incoming = response_frames m cs;
  gone = false;
}

Reach-Holds :
    (m : ResponseStart) (cs : List Bytes) (failures : List Bool) {x : Exchange}
    → Reach (forwarded m cs failures) x
    → Holds m cs failures x.relay x.incoming
unfolding new_response_state
Reach-Holds m cs failures stay = inr (refl, refl, inl (refl, refl))
Reach-Holds m cs failures (next r st) = Step-Holds m cs failures st (Reach-Holds m cs failures r)

-- Whatever the order in which the session reads the frames of a response, the handler takes its
-- cases, the session ends and the browser leaves: where the handler returns with a complete
-- response, the browser has the client's status, the client's headers less the ones that must not
-- be forwarded, and all of the client's chunks in their order.
pub complete_response :
    (m : ResponseStart) (cs : List Bytes) (failures : List Bool) (x : Exchange) (w : Writer)
    → Reach (forwarded m cs failures) x
    → x.relay ≡ returned complete w
    → (w.status ≡ some m.status_code)
      × (w.header ≡ copy [] (from_proto m.headers))
      × (w.body ≡ joined cs)
complete_response m cs failures x w r e =
    let h = subst (λ y. Holds m cs failures y x.incoming) e (Reach-Holds m cs failures r) in
    (h.0.0, h.0.1, h.1)

-- Two runs, one behind the other.
Reach-trans : {x y z : Exchange} → Reach x y → Reach y z → Reach x z
Reach-trans r stay = r
Reach-trans r (next s st) = next (Reach-trans r s) st

write_chunk-fine :
    (c : Bytes) (w : Writer)
    → w.failures ≡ []
    → ((write_chunk c w).1 ≡ true) × ((write_chunk c w).0.failures ≡ [])
unfolding write_chunk write
write_chunk-fine c w e = ground arith

after_chunk-fine :
    (r : ResponseState) (p : Writer × Bool) → p.1 ≡ true → after_chunk r p ≡ streaming r p.0
unfolding after_chunk
after_chunk-fine r (w, true) e = refl
after_chunk-fine r (w, false) e = cc

-- The handler streams, with its queue empty.
abbrev flowing : Writer → List ClientFrame → Exchange
flowing w fs = record { relay = streaming new_response_state w; incoming = fs; gone = false }

abbrev finished : Writer → Exchange
finished w = record { relay = returned complete w; incoming = []; gone = false }

one_chunk :
    (id : ℕ) (c : Bytes) (w : Writer) (fs : List ClientFrame)
    → w.failures ≡ []
    → Reach (flowing w (response_body id c ∷ fs)) (flowing (write_chunk c w).0 fs)
unfolding deliver receive_frame send_or_done relay_step stream_body after_chunk new_response_state
one_chunk id c w fs e =
    next
      (next stay (
        receives {relay' = streaming (record new_response_state { body = c ∷ [] }) w} false none
          refl))
      (picks pick_body (
        ap some (after_chunk-fine new_response_state (write_chunk c w) (write_chunk-fine c w e).0)))

last_frame : (id : ℕ) (w : Writer) → Reach (flowing w (response_end id ∷ [])) (finished w)
unfolding deliver receive_frame finish relay_step drain settle new_response_state
last_frame id w =
    next
      (next stay (
        receives {relay' = streaming (record new_response_state { done = true; once = true }) w}
          false none refl))
      (picks pick_done refl)

run_chunks :
    (id : ℕ) (ds : List Bytes) (w : Writer)
    → w.failures ≡ []
    → (w' : Writer) × Reach (flowing w (chunk_frames id ds)) (finished w')
run_chunks id [] w e = (w, last_frame id w)
run_chunks id (c ∷ ds) w e =
    let (w', r) = run_chunks id ds (write_chunk c w).0 (write_chunk-fine c w e).1 in
    (w', Reach-trans (one_chunk id c w (chunk_frames id ds) e) r)

-- The handler and the receive loop can always take a forwarded request to its complete response,
-- with queues of four chunks and whatever the number and size of the chunks: there is a run in which
-- the browser's writes succeed that ends with the response complete.
pub complete_reachable :
    (m : ResponseStart) (cs : List Bytes)
    → (x : Exchange) × (w : Writer) × Reach (forwarded m cs []) x × (x.relay ≡ returned complete w)
unfolding deliver receive_frame send_or_done relay_step await_start new_response_state
    start_response write_header
complete_reachable m cs =
    let w : Writer = start_response m (fresh_writer []) in
    let (w', r) = run_chunks m.request_id cs w refl in
    (
      finished w',
      w',
      Reach-trans
          (next
            (next stay (
              receives
                {relay' = awaiting (record new_response_state { start = m ∷ [] }) (fresh_writer [])}
                false none refl))
            (picks pick_start refl))
          r,
      refl,
    )
