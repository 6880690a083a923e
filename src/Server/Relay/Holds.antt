-- ===== src/Server/Relay/Holds.antt =====
-- The invariant of the relay: what is written, queued and on its way makes up the response.
use muxbridge.Base.{
  none, Option, some, subst, ◌≡◌, inl, inr, refl, ap, ◌∙◌, Bool, true, List, [], ◌∷◌, ◌++◌, arith,
  Bytes, append_assoc, append-nil, some_inj, Option-cases, Bool-cases, same_iff,
}
use muxbridge.Wire.{ResponseStart, ClientFrame}
use muxbridge.Server.Response.{ResponseState, new_response_state}
use muxbridge.Server.Exchange.{receive_frame}
use muxbridge.Server.Relay.{
  Writer, write, write_header, Outcome, complete, truncated, bad_gateway, canceled, Relay, awaiting,
  streaming, returned, Pick, pick_start, pick_err, pick_body, pick_done, pick_context,
  start_response, await_done, await_start, await_err, write_chunk, drain, after_chunk, stream_body,
  relay_step, deliver, lose, Exchange, Step, receives, picks, loses, leaves,
}
use muxbridge.Server.Relay.Frames.{joined, fresh_writer}
use muxbridge.Server.Relay.Progress.{
  IsStarted, Inv, Progress-receive, receive_start, err_stays, fail_stays, fail_fresh, fail_once,
}

-- What the handler writes.
start_response_lem :
    (m : ResponseStart) (failures : List Bool)
    → IsStarted m [] (start_response m (fresh_writer failures))
      × ((start_response m (fresh_writer failures)).body ≡ [])
unfolding start_response write_header
start_response_lem m failures = ((refl, refl), refl)

-- A chunk that was written stands behind what was written before, and nothing else changed.
abbrev IsAppended : Writer → Writer → Bytes → Type 0
IsAppended w w' b = (w'.status ≡ w.status) × (w'.header ≡ w.header) × (w'.body ≡ w.body ++ b)

write_chunk-IsAppended :
    (chunk : Bytes) (w : Writer)
    → (write_chunk chunk w).1 ≡ true
    → IsAppended w (write_chunk chunk w).0 chunk
unfolding write_chunk write
write_chunk-IsAppended chunk w e = ground (arith, same_iff chunk [], append-nil w.body)

-- Draining ends complete only with no error, and with all chunks written.
drain-IsAppended :
    (chunks errors : List Bytes) (w w' : Writer)
    → drain chunks errors w ≡ returned complete w'
    → (errors ≡ []) × IsAppended w w' (joined chunks)
unfolding drain
drain-IsAppended [] [] w w' e = ground (arith, append-nil w.body)
drain-IsAppended [] (x ∷ errors) w w' e = ground arith
drain-IsAppended (c ∷ chunks) errors w w' e = elim (Bool-cases (write_chunk c w).1) [
  | inl fine ↦
      let ih = drain-IsAppended chunks errors (write_chunk c w).0 w' (rw fine at e) in
      let one = write_chunk-IsAppended c w fine in
      (
        ih.0,
        (
          ih.1.0 ∙ one.0,
          ih.1.1 ∙ one.1,
          ih.1.2 ∙ ap (λ x. x ++ joined chunks) one.2 ∙ append_assoc w.body c (joined chunks),
        ),
      )
  | inr broken ↦ cc (rw broken at e)
]

pub drain_returns :
    (chunks errors : List Bytes) (w : Writer)
    → (o : Outcome) × (w' : Writer) × (drain chunks errors w ≡ returned o w')
unfolding drain
drain_returns [] [] w = (complete, w, refl)
drain_returns [] (e ∷ errors) w = (truncated, w, refl)
drain_returns (c ∷ chunks) errors w = elim (Bool-cases (write_chunk c w).1) [
  | inl fine ↦ rw fine (drain_returns chunks errors (write_chunk c w).0)
  | inr broken ↦ (canceled, (write_chunk c w).0, rw broken)
]

module _ (m : ResponseStart) (cs : List Bytes) (failures : List Bool) where
  abbrev pub Holds : Relay → List ClientFrame → Type 0
  Holds = Inv m cs failures

  waiting_receives :
      (drop : Bool) (frame : ClientFrame) (fs : List ClientFrame) (r r' : ResponseState)
      (w : Writer)
      → receive_frame drop frame r ≡ some r'
      → Holds (awaiting r w) (frame ∷ fs)
      → Holds (awaiting r' w) fs
  waiting_receives drop frame fs r r' w e (inl lost) = inl (err_stays drop frame r r' e lost)
  waiting_receives drop frame fs r r' w e (inr (z, n, inl (new, f))) =
      let got = receive_start m cs drop frame fs r r' e new f in inr (got.0, n, inr (got.1, got.2))
  waiting_receives drop frame fs r r' w e (inr (z, n, inr (st, g))) =
      let got = Progress-receive m cs drop frame fs [] r r' e g in
      inr (got.2 ∙ z, n, inr (got.1 ∙ st, got.0))

  flowing_receives :
      (drop : Bool) (frame : ClientFrame) (fs : List ClientFrame) (r r' : ResponseState)
      (w : Writer)
      → receive_frame drop frame r ≡ some r'
      → Holds (streaming r w) (frame ∷ fs)
      → Holds (streaming r' w) fs
  flowing_receives drop frame fs r r' w e (inl lost) = inl (err_stays drop frame r r' e lost)
  flowing_receives drop frame fs r r' w e (inr (z, n, g)) =
      let got = Progress-receive m cs drop frame fs w.body r r' e g in inr (got.2 ∙ z, n, got.0)

  over-Holds :
      (frame : ClientFrame) (fs : List ClientFrame) (w : Writer) (o : Outcome)
      → Holds (returned o w) (frame ∷ fs)
      → Holds (returned o w) fs
  over-Holds frame fs w complete h = h
  over-Holds frame fs w truncated h = tt
  over-Holds frame fs w bad_gateway h = tt
  over-Holds frame fs w canceled h = tt

  deliver-Holds :
      (drop : Bool) (held : Option ResponseState) (frame : ClientFrame) (fs : List ClientFrame)
      (x x' : Relay)
      → deliver drop held frame x ≡ some x'
      → Holds x (frame ∷ fs)
      → Holds x' fs
  unfolding deliver
  deliver-Holds drop held frame fs (awaiting r w) x' e h =
      elim (Option-cases (receive_frame drop frame r)) [
        | inl g ↦ absurd (cc (rw (g, deliver) at e))
        | inr (r', g) ↦
            subst (λ y. Holds y fs) (some_inj (rw (g, deliver) at e))
              (waiting_receives drop frame fs r r' w g h)
      ]
  deliver-Holds drop held frame fs (streaming r w) x' e h =
      elim (Option-cases (receive_frame drop frame r)) [
        | inl g ↦ absurd (cc (rw (g, deliver) at e))
        | inr (r', g) ↦
            subst (λ y. Holds y fs) (some_inj (rw (g, deliver) at e))
              (flowing_receives drop frame fs r r' w g h)
      ]
  deliver-Holds drop none frame fs (returned o w) x' e h =
      subst (λ y. Holds y fs) (some_inj e) (over-Holds frame fs w o h)
  deliver-Holds drop (some r) frame fs (returned o w) x' e h =
      elim (Option-cases (receive_frame drop frame r)) [
        | inl g ↦ absurd (cc (rw (g, deliver) at e))
        | inr (r', g) ↦
            subst (λ y. Holds y fs) (some_inj (rw (g, deliver) at e)) (over-Holds frame fs w o h)
      ]

  lose-Holds : (e : Bytes) (x : Relay) (fs : List ClientFrame) → Holds x fs → Holds (lose e x) []
  unfolding lose new_response_state
  lose-Holds e (awaiting r w) fs (inl lost) = inl (fail_stays e r lost)
  lose-Holds e (awaiting r w) fs (inr (z, n, inl (new, f))) = inl (fail_fresh e r (ground arith) z)
  lose-Holds e (awaiting r w) fs (inr (z, n, inr (st, inl (ds, d, o, f, g)))) =
      inl (fail_fresh e r o z)
  lose-Holds e (awaiting r w) fs (inr (z, n, inr (st, inr (d, o, f, g)))) =
      rw (fail_once e r o) (inr (z, n, inr (st, inr (d, o, refl, g))))
  lose-Holds e (streaming r w) fs (inl lost) = inl (fail_stays e r lost)
  lose-Holds e (streaming r w) fs (inr (z, n, inl (ds, d, o, f, g))) = inl (fail_fresh e r o z)
  lose-Holds e (streaming r w) fs (inr (z, n, inr (d, o, f, g))) =
      rw (fail_once e r o) (inr (z, n, inr (d, o, refl, g)))
  lose-Holds e (returned complete w) fs h = h
  lose-Holds e (returned truncated w) fs h = tt
  lose-Holds e (returned bad_gateway w) fs h = tt
  lose-Holds e (returned canceled w) fs h = tt

  begun :
      (r : ResponseState) (w : Writer) (fs : List ClientFrame) (n : ResponseStart)
      (rest : List ResponseStart)
      → r.start ≡ n ∷ rest
      → Holds (awaiting r w) fs
      → Holds (streaming (record r { start = rest }) (start_response n w)) fs
  unfolding new_response_state
  begun r w fs n rest e (inl lost) = inl lost
  begun r w fs n rest e (inr (z, fr, inl (new, f))) = absurd (ground arith)
  begun r w fs n rest e (inr (z, fr, inr (st, g))) =
      let same_start : m ≡ n = ground arith in
      let written = start_response_lem m failures in
      rw (fr, ← same_start) (inr (z, written.0, rw written.1 g))

  await_start-Holds :
      (st : List ResponseStart) (r : ResponseState) (w : Writer) (x : Relay) (fs : List ClientFrame)
      → r.start ≡ st
      → await_start st r w ≡ some x
      → Holds (awaiting r w) fs
      → Holds x fs
  unfolding await_start
  await_start-Holds [] r w x fs k e h = cc
  await_start-Holds (n ∷ rest) r w x fs k e h =
      subst (λ y. Holds y fs) (some_inj e) (begun r w fs n rest k h)

  await_done-Holds :
      (st : List ResponseStart) (errors : List Bytes) (r : ResponseState) (w : Writer)
      (fs : List ClientFrame)
      → r.start ≡ st
      → Holds (awaiting r w) fs
      → Holds (await_done st errors r w) fs
  unfolding await_done
  await_done-Holds (n ∷ rest) errors r w fs k h = begun r w fs n rest k h
  await_done-Holds [] (e ∷ errors) r w fs k h = tt
  await_done-Holds [] [] r w fs k h = tt

  await_err-Holds :
      (errors : List Bytes) (w : Writer) (x : Relay) (fs : List ClientFrame)
      → await_err errors w ≡ some x
      → Holds x fs
  unfolding await_err
  await_err-Holds [] w x fs e = cc
  await_err-Holds (y ∷ errors) w x fs e = subst (λ y. Holds y fs) (some_inj e) tt

  chunk_written :
      (c : Bytes) (rest : List Bytes) (r : ResponseState) (w w' : Writer) (fs : List ClientFrame)
      → r.body ≡ c ∷ rest
      → IsAppended w w' c
      → Holds (streaming r w) fs
      → Holds (streaming (record r { body = rest }) w') fs
  chunk_written c rest r w w' fs k a (inl lost) = inl lost
  chunk_written c rest r w w' fs k a (inr (z, n, inl (ds, d, o, f, g))) = inr (
    z,
    (a.0 ∙ n.0, a.1 ∙ n.1),
    inl (ds, d, o, f, rw a.2 (simp append_assoc (simp append_assoc at (rw k at g)))),
  )
  chunk_written c rest r w w' fs k a (inr (z, n, inr (d, o, f, g))) = inr (
    z,
    (a.0 ∙ n.0, a.1 ∙ n.1),
    inr (d, o, f, rw a.2 (append_assoc w.body c (joined rest) ∙ (rw k at g))),
  )

  stream_body-Holds :
      (chunks : List Bytes) (r : ResponseState) (w : Writer) (x : Relay) (fs : List ClientFrame)
      → r.body ≡ chunks
      → stream_body chunks r w ≡ some x
      → Holds (streaming r w) fs
      → Holds x fs
  unfolding stream_body after_chunk
  stream_body-Holds [] r w x fs k e h = cc
  stream_body-Holds (c ∷ rest) r w x fs k e h =
      subst (λ y. Holds y fs) (some_inj e)
        (elim (Bool-cases (write_chunk c w).1) [
          | inl fine ↦
              rw (fine, after_chunk)
                (chunk_written c rest r w (write_chunk c w).0 fs k (write_chunk-IsAppended c w fine)
                  h)
          | inr broken ↦ rw (broken, after_chunk) tt
        ])

  returned-Holds :
      (o : Outcome) (w' : Writer) (fs : List ClientFrame)
      → (o ≡ complete → IsStarted m cs w' × (w'.body ≡ joined cs))
      → Holds (returned o w') fs
  returned-Holds complete w' fs h = h refl
  returned-Holds truncated w' fs h = tt
  returned-Holds bad_gateway w' fs h = tt
  returned-Holds canceled w' fs h = tt

  drained :
      (r : ResponseState) (w w' : Writer) (fs : List ClientFrame)
      → r.done ≡ true
      → drain r.body r.err w ≡ returned complete w'
      → Holds (streaming r w) fs
      → IsStarted m cs w' × (w'.body ≡ joined cs)
  drained r w w' fs k e (inl lost) = absurd (lost (drain-IsAppended r.body r.err w w' e).0)
  drained r w w' fs k e (inr (z, n, inl (ds, d, o, f, g))) = cc
  drained r w w' fs k e (inr (z, n, inr (d, o, f, g))) =
      let a = (drain-IsAppended r.body r.err w w' e).1 in ((a.0 ∙ n.0, a.1 ∙ n.1), a.2 ∙ g)

  drain-Holds :
      (r : ResponseState) (w : Writer) (fs : List ClientFrame)
      → r.done ≡ true
      → Holds (streaming r w) fs
      → Holds (drain r.body r.err w) fs
  drain-Holds r w fs k h =
      let (o, w', e) = drain_returns r.body r.err w in
      rw e (returned-Holds o w' fs (λ c. drained r w w' fs k (rw c at e) h))

  relay_step-Holds :
      (gone : Bool) (p : Pick) (x x' : Relay) (fs : List ClientFrame)
      → relay_step gone p x ≡ some x'
      → Holds x fs
      → Holds x' fs
  unfolding relay_step
  relay_step-Holds gone pick_start (awaiting r w) x' fs e h =
      await_start-Holds r.start r w x' fs refl e h
  relay_step-Holds gone pick_err (awaiting r w) x' fs e h = await_err-Holds r.err w x' fs e
  relay_step-Holds gone pick_done (awaiting r w) x' fs e h = elim (Bool-cases r.done) [
    | inl k ↦
        subst (λ y. Holds y fs) (some_inj (simp k at e))
          (await_done-Holds r.start r.err r w fs refl h)
    | inr k ↦ cc (rw k at e)
  ]
  relay_step-Holds gone pick_context (awaiting r w) x' fs e h = elim (Bool-cases gone) [
    | inl k ↦ subst (λ y. Holds y fs) (some_inj (rw k at e)) tt
    | inr k ↦ cc (rw k at e)
  ]
  relay_step-Holds gone pick_body (awaiting r w) x' fs e h = cc
  relay_step-Holds gone pick_body (streaming r w) x' fs e h =
      stream_body-Holds r.body r w x' fs refl e h
  relay_step-Holds gone pick_done (streaming r w) x' fs e h = elim (Bool-cases r.done) [
    | inl k ↦ subst (λ y. Holds y fs) (some_inj (rw k at e)) (drain-Holds r w fs k h)
    | inr k ↦ cc (rw k at e)
  ]
  relay_step-Holds gone pick_context (streaming r w) x' fs e h = elim (Bool-cases gone) [
    | inl k ↦ subst (λ y. Holds y fs) (some_inj (rw k at e)) tt
    | inr k ↦ cc (rw k at e)
  ]
  relay_step-Holds gone pick_start (streaming r w) x' fs e h = cc
  relay_step-Holds gone pick_err (streaming r w) x' fs e h = cc
  relay_step-Holds gone pick_start (returned o w) x' fs e h = cc
  relay_step-Holds gone pick_err (returned o w) x' fs e h = cc
  relay_step-Holds gone pick_body (returned o w) x' fs e h = cc
  relay_step-Holds gone pick_done (returned o w) x' fs e h = cc
  relay_step-Holds gone pick_context (returned o w) x' fs e h = cc

  pub Step-Holds : {x y : Exchange} → Step x y → Holds x.relay x.incoming → Holds y.relay y.incoming
  Step-Holds (receives {relay} {relay'} {frame} {rest} drop held e) h =
      deliver-Holds drop held frame rest relay relay' e h
  Step-Holds (picks {relay} {relay'} {incoming} {gone} p e) h =
      relay_step-Holds gone p relay relay' incoming e h
  Step-Holds (loses {relay} {incoming} e) h = lose-Holds e relay incoming h
  Step-Holds leaves h = h
