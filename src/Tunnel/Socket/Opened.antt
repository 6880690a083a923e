-- ===== src/Tunnel/Socket/Opened.antt =====
-- The frames with which a socket's handler answers the upgrade, on a stream whose sends may fail.
use muxbridge.Base.{
  ℕ, ◌≡◌, ◌≢◌, ◌⊎◌, inl, inr, refl, ap, ◌∙◌, Bool, true, false, Option, none, some, List, [], ◌∷◌,
  ◌++◌, ◌==◌, Bytes, append_assoc, append-nil, Bool-cases, Option-cases, if◌then◌else◌, codes,
}
use muxbridge.Headers.{Headers}
use muxbridge.Wire.{
  RequestStart, ClientFrame, response_start, response_body, response_end, response_error,
}
use muxbridge.Server.Relay.Frames.{chunk_frames, response_frames}
use muxbridge.Tunnel.Dispatch.{Http, refusal}
use muxbridge.Tunnel.Writer.Frames.{start_of}
use muxbridge.Tunnel.Socket.{
  Ask, upgrade_request, Handshake, write_fails, no_response, responds, status_switching, Opening,
  returns, relays, forward_refusal, report, follow, on_handshake, open_socket,
}

-- `failures` says of the next sends whether each one fails; where it ends, sends succeed.
pub record Stream : Type 0 where
  pub failures : List Bool
  pub log : List ClientFrame

abbrev pub send_error : Bytes
send_error = codes "stream is gone"

unfoldable pub unreliable : ClientFrame → Stream → Option Bytes × Stream
unreliable frame s = elim s.failures [
  | [] ↦ (none, record s { log = s.log ++ frame ∷ [] })
  | failed ∷ rest ↦
      if failed
      then (some send_error, record s { failures = rest })
      else (none, record s { failures = rest; log = s.log ++ frame ∷ [] })
]

abbrev pub stream_of : {S : Type 0} → Opening S → S
stream_of (returns s) = s
stream_of (relays s) = s

-- The frames that the answer to an upgrade means.
abbrev pub handshake_frames : ℕ → Handshake → List ClientFrame
handshake_frames id (write_fails e) = response_error id e ∷ []
handshake_frames id (no_response e) = response_error id e ∷ []
handshake_frames id (responds status header chunks) =
    if status == status_switching
    then response_start (start_of id status header) ∷ []
    else response_frames (start_of id status header) chunks

abbrev pub answer_frames : Http → (Ask → Handshake) → RequestStart → List ClientFrame
answer_frames http serve m = elim (refusal http m) [
  | some e ↦ response_error m.request_id e ∷ []
  | none ↦ handshake_frames m.request_id (serve (upgrade_request http m))
]

-- The stream has a beginning of the frames, and all of them where no send fails.
abbrev IsSent : Stream → Stream → List ClientFrame → Type 0
IsSent s s' frames =
    (rest : List ClientFrame) × (s'.log ++ rest ≡ s.log ++ frames) × (s.failures ≡ [] → rest ≡ [])

abbrev Fails : ClientFrame → Stream → Type 0
Fails frame s =
    (e : Bytes) × ((unreliable frame s).0 ≡ some e)
    × ((unreliable frame s).1.log ≡ s.log)
    × (s.failures ≢ [])

abbrev Succeeds : ClientFrame → Stream → Type 0
Succeeds frame s =
    ((unreliable frame s).0 ≡ none)
    × ((unreliable frame s).1.log ≡ s.log ++ frame ∷ [])
    × (s.failures ≡ [] → (unreliable frame s).1.failures ≡ [])

send-cases :
    (frame : ClientFrame) (s : Stream) (failures : List Bool)
    → s.failures ≡ failures
    → Fails frame s ⊎ Succeeds frame s
unfolding unreliable
send-cases frame s [] e = inr (rw e refl, rw e refl, λ z. rw e refl)
send-cases frame s (true ∷ rest) e = inl (send_error, rw e refl, rw e refl, λ z. cc)
send-cases frame s (false ∷ rest) e = inr (rw e refl, rw e refl, λ z. cc)

unreliable-cases : (frame : ClientFrame) (s : Stream) → Fails frame s ⊎ Succeeds frame s
unreliable-cases frame s = send-cases frame s s.failures refl

one-IsSent : (frame : ClientFrame) (s : Stream) → IsSent s (unreliable frame s).1 (frame ∷ [])
one-IsSent frame s = elim (unreliable-cases frame s) [
  | inl (e, x, l, f) ↦ (frame ∷ [], ap (λ y. y ++ frame ∷ []) l, λ z. absurd (f z))
  | inr (x, l, f) ↦ ([], append-nil _ ∙ l, λ _. refl)
]

more-IsSent :
    (frame : ClientFrame) (frames : List ClientFrame) (s s' : Stream)
    → Succeeds frame s
    → IsSent (unreliable frame s).1 s' frames
    → IsSent s s' (frame ∷ frames)
more-IsSent frame frames s s' (x, l, f) (rest, e, g) =
    (rest, e ∙ ap (λ y. y ++ frames) l ∙ append_assoc s.log (frame ∷ []) frames, λ z. g (f z))

none-IsSent :
    (frame : ClientFrame) (frames : List ClientFrame) (s : Stream)
    → Fails frame s
    → IsSent s (unreliable frame s).1 frames
none-IsSent frame frames s (e, x, l, f) = (frames, ap (λ y. y ++ frames) l, λ z. absurd (f z))

forward_refusal-IsSent :
    (id : ℕ) (cs : List Bytes) (s : Stream)
    → IsSent s (forward_refusal unreliable id cs s) (chunk_frames id cs)
unfolding forward_refusal
forward_refusal-IsSent id [] s = one-IsSent (response_end id) s
forward_refusal-IsSent id (c ∷ cs) s =
    let after = (unreliable (response_body id c) s).1 in
    let rest = forward_refusal-IsSent id cs after in
    elim (unreliable-cases (response_body id c) s) [
      | inl f ↦
          rw (f.1, forward_refusal)
            (none-IsSent (response_body id c) (chunk_frames id (c ∷ cs)) s f)
      | inr f ↦
          rw (f.0, forward_refusal)
            (more-IsSent (response_body id c) (chunk_frames id cs) s
              (forward_refusal unreliable id cs after) f rest)
    ]

follow-fails :
    (id status : ℕ) (chunks : List Bytes) (e : Bytes) (p : Option Bytes × Stream)
    → p.0 ≡ some e
    → follow unreliable id status chunks p ≡ returns p.1
unfolding follow
follow-fails id status chunks e (some x, s) q = refl
follow-fails id status chunks e (none, s) q = cc

follow-succeeds :
    (id status : ℕ) (chunks : List Bytes) (p : Option Bytes × Stream)
    → p.0 ≡ none
    → follow unreliable id status chunks p ≡ (
        if status == status_switching
        then relays p.1
        else returns (forward_refusal unreliable id chunks p.1))
unfolding follow
follow-succeeds id status chunks (some x, s) q = cc
follow-succeeds id status chunks (none, s) q = refl

start-IsSent :
    (id status : ℕ) (header : Headers) (chunks : List Bytes) (s : Stream)
    → Succeeds (response_start (start_of id status header)) s
    → (status == status_switching) ≡ true ⊎ (status == status_switching) ≡ false
    → IsSent s
        (stream_of (on_handshake unreliable id (responds status header chunks) s))
        (handshake_frames id (responds status header chunks))
unfolding on_handshake
start-IsSent id status header chunks s f (inl b) =
    let m = response_start (start_of id status header) in
    rw (follow-succeeds id status chunks (unreliable m s) f.0, b) (one-IsSent m s)
start-IsSent id status header chunks s f (inr b) =
    let m = response_start (start_of id status header) in
    rw (follow-succeeds id status chunks (unreliable m s) f.0, b)
      (more-IsSent m (chunk_frames id chunks) s
        (forward_refusal unreliable id chunks (unreliable m s).1) f
        (forward_refusal-IsSent id chunks (unreliable m s).1))

follow-IsSent :
    (id status : ℕ) (header : Headers) (chunks : List Bytes) (s : Stream)
    → IsSent s
        (stream_of (on_handshake unreliable id (responds status header chunks) s))
        (handshake_frames id (responds status header chunks))
unfolding on_handshake
follow-IsSent id status header chunks s =
    let m = response_start (start_of id status header) in
    elim (unreliable-cases m s) [
      | inl (e, x, l, n) ↦
          rw (follow-fails id status chunks e (unreliable m s) x)
            (none-IsSent m (handshake_frames id (responds status header chunks)) s (e, x, l, n))
      | inr f ↦ start-IsSent id status header chunks s f (Bool-cases (status == status_switching))
    ]

on_handshake-IsSent :
    (id : ℕ) (h : Handshake) (s : Stream)
    → IsSent s (stream_of (on_handshake unreliable id h s)) (handshake_frames id h)
unfolding on_handshake report
on_handshake-IsSent id (write_fails e) s = one-IsSent (response_error id e) s
on_handshake-IsSent id (no_response e) s = one-IsSent (response_error id e) s
on_handshake-IsSent id (responds status header chunks) s = follow-IsSent id status header chunks s

-- On a stream whose sends fail in whatever pattern, the frames that answer an upgrade are a beginning
-- of the frames that the answer means, and all of them where no send fails: one error frame where the
-- request is not valid, cannot be written to the handler or gets no response; the start alone where
-- the handler switches protocols; and else the start, the body and the end of the handler's refusal.
pub open_socket_frames :
    (http : Http) (serve : Ask → Handshake) (m : RequestStart) (failures : List Bool)
    → (rest : List ClientFrame) × ((stream_of
            (open_socket unreliable http serve m (record { failures = failures; log = [] }))).log
          ++ rest
        ≡ answer_frames http serve m)
      × (failures ≡ [] → rest ≡ [])
unfolding open_socket report
open_socket_frames http serve m failures =
    let s : Stream = record { failures = failures; log = [] } in
    elim (Option-cases (refusal http m)) [
      | inl fine ↦
          rw (fine, open_socket, answer_frames)
            (on_handshake-IsSent m.request_id (serve (upgrade_request http m)) s)
      | inr (e, bad) ↦
          rw (bad, open_socket, answer_frames) (one-IsSent (response_error m.request_id e) s)
    ]
