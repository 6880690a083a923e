-- ===== src/Tunnel/Socket/Journey.antt =====
-- A refusal of an upgrade, from the client's handler to the browser.
use muxbridge.Base.{
  ℕ, ◌≡◌, ◌≢◌, inl, inr, refl, sym, ap, ◌∙◌, subst, Bool, none, some, List, [], ◌∷◌, ◌++◌, ◌==◌,
  arith, Bytes, All, append-nil, Bool-cases,
}
use muxbridge.Headers.{Headers, from_proto, copy}
use muxbridge.Wire.{RequestStart, ClientFrame}
use muxbridge.Server.Relay.{Writer}
use muxbridge.Server.Relay.Frames.{chunk_frames, response_frames}
use muxbridge.Server.Socket.{Hijack, Shake, ShakeReach, refuses}
use muxbridge.Server.Socket.Refusals.{IsAnswer, IsOf, asked, upgrade_answers}
use muxbridge.Tunnel.Dispatch.{Http, refusal}
use muxbridge.Tunnel.Writer.Frames.{start_of}
use muxbridge.Tunnel.Socket.{
  Ask, upgrade_request, Handshake, responds, status_switching, open_socket,
}
use muxbridge.Tunnel.Socket.Opened.{unreliable, stream_of, answer_frames, open_socket_frames}

-- The frames of the client's handler on a stream that takes each one.
abbrev pub sent_frames : Http → (Ask → Handshake) → RequestStart → List ClientFrame
sent_frames http serve m =
    (stream_of (open_socket unreliable http serve m (record { failures = []; log = [] }))).log

sent_frames_lem :
    (http : Http) (serve : Ask → Handshake) (m : RequestStart)
    → sent_frames http serve m ≡ answer_frames http serve m
sent_frames_lem http serve m =
    let (rest, e, all) = open_socket_frames http serve m [] in
    sym (append-nil (sent_frames http serve m))
    ∙ ap (λ x. sent_frames http serve m ++ x) (sym (all refl))
    ∙ e

chunk_frames-IsOf :
    (id status : ℕ) (header : Headers) (cs : List Bytes)
    → All (IsOf (start_of id status header)) (chunk_frames id cs)
chunk_frames-IsOf id status header [] = (tt, tt)
chunk_frames-IsOf id status header (c ∷ cs) = (tt, chunk_frames-IsOf id status header cs)

refusal_frames :
    (http : Http) (serve : Ask → Handshake) (m : RequestStart) (status : ℕ) (header : Headers)
    (chunks : List Bytes)
    → refusal http m ≡ none
    → serve (upgrade_request http m) ≡ responds status header chunks
    → status ≢ status_switching
    → answer_frames http serve m ≡ response_frames (start_of m.request_id status header) chunks
refusal_frames http serve m status header chunks valid answered other =
    elim (Bool-cases (status == status_switching)) [
      | inl b ↦ absurd (other (ground arith))
      | inr b ↦ rw (answer_frames, valid, answered, b) refl
    ]

-- A handler that refuses an upgrade with a status, headers and a page has all of them sent to the
-- edge; but whatever the order of events there, a browser that gets the refusal gets its status and its
-- headers, less what must not be forwarded, and no byte of the page.
pub refused_page_lost :
    (http : Http) (serve : Ask → Handshake) (m : RequestStart) (status : ℕ) (header : Headers)
    (page : List Bytes) (hijack : Hijack) (failures : List Bool) (x : Shake) (w : Writer)
    → refusal http m ≡ none
    → serve (upgrade_request http m) ≡ responds status header page
    → status ≢ status_switching
    → ShakeReach hijack (asked failures (sent_frames http serve m)) x
    → x.upgrade ≡ refuses w
    → (sent_frames http serve m ≡ response_frames (start_of m.request_id status header) page)
      × (w.status ≡ some status)
      × (w.header ≡ copy [] (from_proto (start_of m.request_id status header).headers))
      × (w.body ≡ [])
refused_page_lost http serve m status header page hijack failures x w valid answered other r e =
    let frames =
      sent_frames_lem http serve m
      ∙ refusal_frames http serve m status header page valid answered other in
    let start = start_of m.request_id status header in
    let answers =
      upgrade_answers hijack start failures (response_frames start page) x
        (refl, chunk_frames-IsOf m.request_id status header page)
        (subst (λ fs. ShakeReach hijack (asked failures fs) x) frames r) in
    let refused = subst (IsAnswer hijack start failures) e answers in
    (frames, refused.1, refused.2, refused.3)
