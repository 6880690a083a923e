-- ===== src/Server/Socket/Refusals.antt =====
-- How the handler answers the upgrade.
use muxbridge.Base.{
  ℕ, ◌≡◌, ◌≢◌, ◌⊎◌, inl, inr, refl, sym, ap, ◌∙◌, subst, Bool, true, false, Option, some, some_inj,
  List, [], ◌∷◌, ◌++◌, arith, Bytes, All, All-append, Option-cases, Bool-cases, ◌==◌, codes, none,
}
use muxbridge.Headers.{from_proto, copy}
use muxbridge.Wire.{
  ResponseStart, ClientFrame, register, pong, response_start, response_body, response_end,
  response_error,
}
use muxbridge.Server.Response.{ResponseState, new_response_state, send_or_done, finish, fail}
use muxbridge.Server.Exchange.{receive_frame}
use muxbridge.Server.Relay.{
  Writer, write, write_header, http_error, write_bad_gateway, status_bad_gateway, start_response,
  public_bad_gateway_message,
}
use muxbridge.Server.Relay.Frames.{fresh_writer}
use muxbridge.Server.Socket.{
  Hijack, no_hijacker, hijack_fails, hijacks, Upgrade, waits_for, fails_with, cancels, refuses,
  breaks, switches, UpgradePick, pick_start, pick_err, pick_done, pick_session, pick_context,
  answer, take_start, take_err, on_done, upgrade_step, upgrade_deliver, upgrade_lose, Shake,
  ShakeStep, receives, picks, loses, leaves, ShakeReach, stay, next, status_switching,
  status_version,
}

-- A frame whose start, if it is one, is `m`.
abbrev pub IsOf : ResponseStart → ClientFrame → Type 0
IsOf m (response_start n) = n ≡ m
IsOf m (register tunnel_id token) = Unit
IsOf m (pong t) = Unit
IsOf m (response_body id chunk) = Unit
IsOf m (response_end id) = Unit
IsOf m (response_error id message) = Unit
IsOf m (ClientFrame.ws_data id payload) = Unit
IsOf m (ClientFrame.ws_close id) = Unit
IsOf m ClientFrame.absent = Unit

-- The handler has just forwarded the upgrade, over a browser's connection with nothing written.
abbrev pub asked : List Bool → List ClientFrame → Shake
asked failures frames = record {
  upgrade = waits_for new_response_state (fresh_writer failures);
  incoming = frames;
  ended = false;
  gone = false;
}

module _ (hijack : Hijack) (m : ResponseStart) (failures : List Bool) where
  -- What the answers stand for: a relay only for the client's own 101, the client's own refusal with its
  -- headers and no body, a gateway's error, and nothing at all.
  abbrev pub IsAnswer : Upgrade → Type 0
  IsAnswer (waits_for r w) = All (λ n. n ≡ m) r.start × (w ≡ fresh_writer failures)
  IsAnswer (fails_with w) =
      (w.status ≡ some status_bad_gateway)
      ⊎ ((w.status ≡ some status_version)
          × (m.status_code ≡ status_switching)
          × (hijack ≡ no_hijacker))
  IsAnswer (cancels w) = w ≡ fresh_writer failures
  IsAnswer (refuses w) =
      (m.status_code ≢ status_switching)
      × (w.status ≡ some m.status_code)
      × (w.header ≡ copy [] (from_proto m.headers))
      × (w.body ≡ [])
  IsAnswer breaks = (m.status_code ≡ status_switching) × (hijack ≡ hijack_fails)
  IsAnswer (switches n buffered) =
      (n ≡ m) × (m.status_code ≡ status_switching) × (hijack ≡ hijacks buffered)

  http_error-status :
      (message : Bytes) (code : ℕ)
      → (http_error message code (fresh_writer failures)).status ≡ some code
  unfolding http_error write_header write
  http_error-status message code = ground arith

  write_bad_gateway-status :
      (write_bad_gateway (fresh_writer failures)).status ≡ some status_bad_gateway
  unfolding write_bad_gateway
  write_bad_gateway-status = http_error-status public_bad_gateway_message status_bad_gateway

  switching-IsAnswer :
      (h : Hijack)
      → h ≡ hijack
      → (m.status_code == status_switching) ≡ true
      → IsAnswer (answer h m (fresh_writer failures))
  unfolding answer
  switching-IsAnswer no_hijacker e s = rw s (
      inr (
        http_error-status (codes "WebSocket requires HTTP/1.1") status_version,
        ground arith,
        sym e,
      ))
  switching-IsAnswer hijack_fails e s = rw s (ground arith, sym e)
  switching-IsAnswer (hijacks buffered) e s = rw s (refl, ground arith, sym e)

  refusing-IsAnswer :
      (h : Hijack)
      → (m.status_code == status_switching) ≡ false
      → IsAnswer (answer h m (fresh_writer failures))
  unfolding answer start_response write_header
  refusing-IsAnswer h s = rw s (ground arith, refl, refl, refl)

  answer-IsAnswer : IsAnswer (answer hijack m (fresh_writer failures))
  answer-IsAnswer = elim (Bool-cases (m.status_code == status_switching)) [
    | inl s ↦ switching-IsAnswer hijack refl s
    | inr s ↦ refusing-IsAnswer hijack s
  ]

  receive_start-start :
      (drop : Bool) (n : ResponseStart) (r r' : ResponseState)
      → receive_frame drop (response_start n) r ≡ some r'
      → (r'.start ≡ r.start) ⊎ (r'.start ≡ r.start ++ n ∷ [])
  unfolding receive_frame send_or_done
  receive_start-start drop n r r' g = ground arith

  receive_frame-IsAnswer :
      (drop : Bool) (frame : ClientFrame) (r r' : ResponseState)
      → receive_frame drop frame r ≡ some r'
      → IsOf m frame
      → All (λ n. n ≡ m) r.start
      → All (λ n. n ≡ m) r'.start
  unfolding receive_frame send_or_done finish fail
  receive_frame-IsAnswer drop (response_start n) r r' g f h =
      elim (receive_start-start drop n r r' g) [
        | inl e ↦ subst (All (λ x. x ≡ m)) (sym e) h
        | inr e ↦
            subst (All (λ x. x ≡ m)) (sym e) (All-append (λ x. x ≡ m) r.start (n ∷ []) h (f, tt))
      ]
  receive_frame-IsAnswer drop frame r r' g f h =
      subst (All (λ x. x ≡ m)) {x = r.start} (ground arith) h

  on_done-IsAnswer : (errors : List Bytes) → IsAnswer (on_done errors (fresh_writer failures))
  unfolding on_done
  on_done-IsAnswer [] =
      inl (http_error-status (codes "tunnel closed connection") status_bad_gateway)
  on_done-IsAnswer (e ∷ errors) = inl write_bad_gateway-status

  take_start-IsAnswer :
      (starts : List ResponseStart) (u : Upgrade)
      → take_start hijack starts (fresh_writer failures) ≡ some u
      → All (λ n. n ≡ m) starts
      → IsAnswer u
  unfolding take_start
  take_start-IsAnswer [] u g h = cc
  take_start-IsAnswer (n ∷ rest) u g (e, h) =
      subst IsAnswer (some_inj g)
        (subst (λ x. IsAnswer (answer hijack x (fresh_writer failures))) (sym e) answer-IsAnswer)

  take_err-IsAnswer :
      (errors : List Bytes) (u : Upgrade)
      → take_err errors (fresh_writer failures) ≡ some u
      → IsAnswer u
  unfolding take_err
  take_err-IsAnswer [] u g = cc
  take_err-IsAnswer (e ∷ errors) u g = subst IsAnswer (some_inj g) (inl write_bad_gateway-status)

  upgrade_step-IsAnswer :
      (ended gone : Bool) (p : UpgradePick) (r : ResponseState) (u : Upgrade)
      → upgrade_step hijack ended gone p (waits_for r (fresh_writer failures)) ≡ some u
      → All (λ n. n ≡ m) r.start
      → IsAnswer u
  unfolding upgrade_step
  upgrade_step-IsAnswer ended gone pick_start r u g h = take_start-IsAnswer r.start u g h
  upgrade_step-IsAnswer ended gone pick_err r u g h = take_err-IsAnswer r.err u g
  upgrade_step-IsAnswer ended gone pick_done r u g h =
      let open_done = Bool-cases r.done in
      elim open_done [
        | inl d ↦ subst IsAnswer (some_inj (rw d at g)) (on_done-IsAnswer r.err)
        | inr d ↦ cc (rw d at g)
      ]
  upgrade_step-IsAnswer true gone pick_session r u g h =
      subst IsAnswer (some_inj g)
        (inl (http_error-status (codes "session closed") status_bad_gateway))
  upgrade_step-IsAnswer false gone pick_session r u g h = cc
  upgrade_step-IsAnswer ended true pick_context r u g h = subst IsAnswer (some_inj g) refl
  upgrade_step-IsAnswer ended false pick_context r u g h = cc

  upgrade_step_waits :
      (ended gone : Bool) (p : UpgradePick) (u u' : Upgrade)
      → upgrade_step hijack ended gone p u ≡ some u'
      → (r : ResponseState) × (w : Writer) × (u ≡ waits_for r w)
  unfolding upgrade_step
  upgrade_step_waits ended gone p (waits_for r w) u' g = (r, w, refl)
  upgrade_step_waits ended gone p u u' g = ground arith

  fail-start : (e : Option Bytes) (r : ResponseState) → (fail e r).start ≡ r.start
  unfolding fail
  fail-start e r = ground arith

  upgrade_lose-IsAnswer : (e : Bytes) (u : Upgrade) → IsAnswer u → IsAnswer (upgrade_lose e u)
  unfolding upgrade_lose
  upgrade_lose-IsAnswer e (waits_for r w) (h, f) =
      (subst (All (λ x. x ≡ m)) (sym (fail-start (some e) r)) h, f)
  upgrade_lose-IsAnswer e u h = h

  upgrade_deliver-IsAnswer :
      (drop : Bool) (held : Option ResponseState) (frame : ClientFrame) (u u' : Upgrade)
      → upgrade_deliver drop held frame u ≡ some u'
      → IsOf m frame
      → IsAnswer u
      → IsAnswer u'
  unfolding upgrade_deliver
  upgrade_deliver-IsAnswer drop held frame (waits_for r w) u' g f (h, e) =
      elim (Option-cases (receive_frame drop frame r)) [
        | inl waits ↦ cc (rw (waits, upgrade_deliver) at g)
        | inr (r', q) ↦
            subst IsAnswer (some_inj (rw (q, upgrade_deliver) at g))
              (receive_frame-IsAnswer drop frame r r' q f h, e)
      ]
  upgrade_deliver-IsAnswer drop none frame u u' g f h = subst IsAnswer (some_inj g) h
  upgrade_deliver-IsAnswer drop (some r) frame u u' g f h =
      elim (Option-cases (receive_frame drop frame r)) [
        | inl waits ↦ absurd (cc (rw (waits, upgrade_deliver) at g))
        | inr (r', q) ↦ subst IsAnswer (some_inj (rw (q, upgrade_deliver) at g)) h
      ]

  abbrev Answers : Shake → Type 0
  Answers x = IsAnswer x.upgrade × All (IsOf m) x.incoming

  ShakeStep-Answers : {x y : Shake} → ShakeStep hijack x y → Answers x → Answers y
  ShakeStep-Answers {x} (receives drop held frame rest u e g) (h, fs) =
      let both = subst (All (IsOf m)) e fs in
      (upgrade_deliver-IsAnswer drop held frame x.upgrade u g both.0 h, both.1)
  ShakeStep-Answers {x} (picks p u g) (h, fs) =
      let (r, w, e) = upgrade_step_waits x.ended x.gone p x.upgrade u g in
      let waiting = subst IsAnswer e h in
      let fresh = e ∙ ap (waits_for r) waiting.1 in
      (upgrade_step-IsAnswer x.ended x.gone p r u (rw fresh at g) waiting.0, fs)
  ShakeStep-Answers {x} (loses e) (h, fs) = (upgrade_lose-IsAnswer e x.upgrade h, tt)
  ShakeStep-Answers leaves h = h

  ShakeReach-Answers :
      (frames : List ClientFrame) {x : Shake}
      → All (IsOf m) frames
      → ShakeReach hijack (asked failures frames) x
      → Answers x
  unfolding new_response_state
  ShakeReach-Answers frames h stay = ((tt, refl), h)
  ShakeReach-Answers frames h (next r st) = ShakeStep-Answers st (ShakeReach-Answers frames h r)

-- Whatever the frames that the client sends, as long as a start among them is `m`, and whatever the
-- order of the session, the handler's cases, the end of the session and the browser's leave: the
-- handler relays a socket only behind the client's own status 101 on a connection that it could take
-- over; it refuses with any other status of the client, with the client's headers less the ones that
-- must not be forwarded and with no body; else it answers 502, or 505 on a connection that cannot be
-- taken over at all, or leaves the browser without a byte.
pub upgrade_answers :
    (hijack : Hijack) (m : ResponseStart) (failures : List Bool) (frames : List ClientFrame)
    (x : Shake)
    → All (IsOf m) frames
    → ShakeReach hijack (asked failures frames) x
    → IsAnswer hijack m failures x.upgrade
upgrade_answers hijack m failures frames x h r = (ShakeReach-Answers hijack m failures frames h r).0
