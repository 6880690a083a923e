-- ===== src/Server/Relay/Progress.antt =====
-- How far a response is: what is written, queued and on its way makes it up.
use muxbridge.Base.{
  subst, ◌≡◌, ◌≢◌, ◌⊎◌, inl, inr, refl, ap, ◌∙◌, Bool, true, false, some, List, [], ◌∷◌, ◌++◌,
  arith, Bytes, append_assoc, append-nil,
}
use muxbridge.Headers.{from_proto, copy}
use muxbridge.Wire.{
  ResponseStart, ClientFrame, response_start, response_body, response_end, response_error,
}
use muxbridge.Server.Response.{ResponseState, new_response_state, fail, finish, send_or_done}
use muxbridge.Server.Exchange.{receive_frame}
use muxbridge.Server.Relay.{
  Writer, complete, truncated, bad_gateway, canceled, Relay, awaiting, streaming, returned,
}
use muxbridge.Server.Relay.Frames.{
  joined, joined-append, chunk_frames, response_frames, fresh_writer,
}

module _ (m : ResponseStart) (cs : List Bytes) where
  -- `b` is written: what is in the queue and what is on its way make up the rest.
  abbrev pub Progress : ResponseState → List ClientFrame → Bytes → Type 0
  Progress r fs b =
      ((ds : List Bytes) × (r.done ≡ false)
        × (r.once ≡ false)
        × (fs ≡ chunk_frames m.request_id ds)
        × (b ++ (joined r.body ++ joined ds) ≡ joined cs))
      ⊎ ((r.done ≡ true) × (r.once ≡ true) × (fs ≡ []) × (b ++ joined r.body ≡ joined cs))

  -- The browser has the status and the headers of the response.
  abbrev pub IsStarted : Writer → Type 0
  IsStarted w = (w.status ≡ some m.status_code) × (w.header ≡ copy [] (from_proto m.headers))

  abbrev pub IsWaiting : List Bool → ResponseState → Writer → List ClientFrame → Type 0
  IsWaiting failures r w fs =
      (r.err ≡ [])
      × (w ≡ fresh_writer failures)
      × (((r ≡ new_response_state) × (fs ≡ response_frames m cs))
          ⊎ ((r.start ≡ m ∷ []) × Progress r fs []))

  abbrev pub IsFlowing : ResponseState → Writer → List ClientFrame → Type 0
  IsFlowing r w fs = (r.err ≡ []) × IsStarted w × Progress r fs w.body

  -- With an error in its channel the request is lost, and nothing is claimed but that.
  abbrev pub Inv : List Bool → Relay → List ClientFrame → Type 0
  Inv failures (awaiting r w) fs = (r.err ≢ []) ⊎ IsWaiting failures r w fs
  Inv failures (streaming r w) fs = (r.err ≢ []) ⊎ IsFlowing r w fs
  Inv failures (returned complete w) fs = IsStarted w × (w.body ≡ joined cs)
  Inv failures (returned truncated w) fs = Unit
  Inv failures (returned bad_gateway w) fs = Unit
  Inv failures (returned canceled w) fs = Unit

  Progress-end :
      (drop : Bool) (fs : List ClientFrame) (b : Bytes) (r r' : ResponseState)
      → receive_frame drop (response_end m.request_id) r ≡ some r'
      → r.once ≡ false
      → fs ≡ []
      → b ++ (joined r.body ++ []) ≡ joined cs
      → Progress r' fs b × (r'.start ≡ r.start) × (r'.err ≡ r.err)
  unfolding receive_frame finish
  Progress-end drop fs b r r' e o f g = (
    inr (ground arith, ground arith, f, ground (arith, append-nil (joined r.body))),
    ground arith,
    ground arith,
  )

  Progress-body :
      (drop : Bool) (fs : List ClientFrame) (b c : Bytes) (ds : List Bytes) (r r' : ResponseState)
      → receive_frame drop (response_body m.request_id c) r ≡ some r'
      → r.done ≡ false
      → r.once ≡ false
      → fs ≡ chunk_frames m.request_id ds
      → b ++ (joined r.body ++ joined (c ∷ ds)) ≡ joined cs
      → Progress r' fs b × (r'.start ≡ r.start) × (r'.err ≡ r.err)
  unfolding receive_frame send_or_done
  Progress-body drop fs b c ds r r' e d o f g = (
    inl (ds, ground arith, ground arith, f, rw grown (ap (◌++◌ b) sums ∙ g)),
    ground arith,
    ground arith,
  )
    where
      grown : r'.body ≡ r.body ++ c ∷ []
      grown = ground arith

      sums : joined (r.body ++ c ∷ []) ++ joined ds ≡ joined r.body ++ joined (c ∷ ds)
      sums = simp (joined-append, append_assoc, append-nil)

  pub Progress-receive :
      (drop : Bool) (frame : ClientFrame) (fs : List ClientFrame) (b : Bytes) (r r' : ResponseState)
      → receive_frame drop frame r ≡ some r'
      → Progress r (frame ∷ fs) b
      → Progress r' fs b × (r'.start ≡ r.start) × (r'.err ≡ r.err)
  Progress-receive drop frame fs b r r' e (inl ([], d, o, f, g)) =
      Progress-end drop fs b r r' (subst (λ x. receive_frame drop x r ≡ some r') (cc) e) o (cc) g
  Progress-receive drop frame fs b r r' e (inl (c ∷ ds, d, o, f, g)) =
      Progress-body drop fs b c ds r r' (subst (λ x. receive_frame drop x r ≡ some r') (cc) e) d o
        (cc) g
  Progress-receive drop frame fs b r r' e (inr (d, o, f, g)) = cc

  -- The first frame is the start of the response.
  pub receive_start :
      (drop : Bool) (frame : ClientFrame) (fs : List ClientFrame) (r r' : ResponseState)
      → receive_frame drop frame r ≡ some r'
      → r ≡ new_response_state
      → frame ∷ fs ≡ response_frames m cs
      → (r'.err ≡ []) × (r'.start ≡ m ∷ []) × Progress r' fs []
  unfolding receive_frame send_or_done new_response_state
  receive_start drop frame fs r r' e n f =
      (ground arith, ground arith, inl (cs, ground arith, ground arith, cc, rw empty refl))
    where
      sent : receive_frame drop (response_start m) r ≡ some r'
      sent = subst (λ x. receive_frame drop x r ≡ some r') {y = response_start m} (cc) e

      empty : r'.body ≡ []
      empty = ground arith

pub err_stays :
    (drop : Bool) (frame : ClientFrame) (r r' : ResponseState)
    → receive_frame drop frame r ≡ some r'
    → r.err ≢ []
    → r'.err ≢ []
unfolding receive_frame finish fail
err_stays drop (response_start m) r r' e n = ground arith
err_stays drop (response_body id c) r r' e n = ground arith
err_stays drop (response_end id) r r' e n = ground arith
err_stays drop (response_error id x) r r' e n = ground arith
err_stays drop _ r r' e n = ground arith

pub fail_stays : (e : Bytes) (r : ResponseState) → r.err ≢ [] → (fail (some e) r).err ≢ []
unfolding fail
fail_stays e r n = ground arith

pub fail_fresh :
    (e : Bytes) (r : ResponseState) → r.once ≡ false → r.err ≡ [] → (fail (some e) r).err ≢ []
unfolding fail
fail_fresh e r o z = ground arith

pub fail_once : (e : Bytes) (r : ResponseState) → r.once ≡ true → fail (some e) r ≡ r
unfolding fail
fail_once e r o = ground arith
