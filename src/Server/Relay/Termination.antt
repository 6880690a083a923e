-- ===== src/Server/Relay/Termination.antt =====
-- The handler's return behind the end of its request.
use muxbridge.Base.{
  ℕ, suc, ◌+◌, ◌≤◌, ◌<◌, ◌≡◌, ◌⊎◌, inl, inr, refl, sym, ap, subst, Bool, true, false, some, none,
  some_inj, List, [], ◌∷◌, arith, length, Bytes, if◌then◌else◌,
}
use muxbridge.Wire.{ResponseStart}
use muxbridge.Server.Response.{ResponseState}
use muxbridge.Server.Relay.{
  Writer, Relay, awaiting, streaming, returned, Pick, pick_start, pick_err, pick_body, pick_done,
  pick_context, await_start, await_err, await_done, after_chunk, stream_body, drain, write_chunk,
  relay_step,
}
use muxbridge.Server.Relay.Holds.{drain_returns}

-- The cases that the handler can still take.
abbrev pub cases_left : Relay → ℕ
cases_left (awaiting r w) = length r.body + 2
cases_left (streaming r w) = length r.body + 1
cases_left (returned o w) = 0

-- The request is over for the handler: the client has ended it, it has failed, or the handler is back.
abbrev pub IsEnded : Relay → Type 0
IsEnded (awaiting r w) = r.done ≡ true
IsEnded (streaming r w) = r.done ≡ true
IsEnded (returned o w) = Unit

abbrev pub IsReturned : Relay → Type 0
IsReturned (awaiting r w) = ⊥
IsReturned (streaming r w) = ⊥
IsReturned (returned o w) = Unit

-- The handler takes `n` cases, one behind the other, with the browser there or not at each.
pub data Takes (x : Relay) : ℕ → Relay → Type 0 where
  takes_none : Takes x 0 x
  takes_one :
      {n : ℕ} {y z : Relay} (gone : Bool) (p : Pick)
      → Takes x n y
      → relay_step gone p y ≡ some z
      → Takes x (suc n) z

-- What a case leads to: fewer cases left, with the request still ended.
abbrev Advances : Relay → Relay → Type 0
Advances x y = (cases_left y < cases_left x) × (IsEnded x → IsEnded y)

drain-Advances :
    (chunks errors : List Bytes) (w : Writer) (x : Relay)
    → 0 < cases_left x
    → Advances x (drain chunks errors w)
drain-Advances chunks errors w x pos =
    let (o, w', e) = drain_returns chunks errors w in subst (Advances x) (sym e) (pos, λ h. tt)

after_chunk-Advances :
    (r : ResponseState) (chunk : Bytes) (rest : List Bytes) (w : Writer) (p : Writer × Bool)
    → r.body ≡ chunk ∷ rest
    → Advances (streaming r w) (after_chunk (record r { body = rest }) p)
unfolding after_chunk
after_chunk-Advances r chunk rest w (w', true) e = (ground (arith, ap length e), λ h. h)
after_chunk-Advances r chunk rest w (w', false) e = (omega arith, λ h. tt)

stream_body-Advances :
    (r : ResponseState) (body : List Bytes) (w : Writer) (y : Relay)
    → r.body ≡ body
    → stream_body body r w ≡ some y
    → Advances (streaming r w) y
unfolding stream_body
stream_body-Advances r [] w y e g = cc
stream_body-Advances r (chunk ∷ rest) w y e g =
    subst (Advances (streaming r w)) (some_inj g)
      (after_chunk-Advances r chunk rest w (write_chunk chunk w) e)

await_done-Advances :
    (starts : List ResponseStart) (errors : List Bytes) (r : ResponseState) (w : Writer)
    → Advances (awaiting r w) (await_done starts errors r w)
unfolding await_done
await_done-Advances (m ∷ rest) errors r w = (omega arith, λ h. h)
await_done-Advances [] (e ∷ errors) r w = (omega arith, λ h. tt)
await_done-Advances [] [] r w = (omega arith, λ h. tt)

await_start-Advances :
    (starts : List ResponseStart) (r : ResponseState) (w : Writer) (y : Relay)
    → await_start starts r w ≡ some y
    → Advances (awaiting r w) y
unfolding await_start
await_start-Advances [] r w y g = cc
await_start-Advances (m ∷ rest) r w y g =
    subst (Advances (awaiting r w)) (some_inj g) (omega arith, λ h. h)

await_err-Advances :
    (errors : List Bytes) (r : ResponseState) (w : Writer) (y : Relay)
    → await_err errors w ≡ some y
    → Advances (awaiting r w) y
unfolding await_err
await_err-Advances [] r w y g = cc
await_err-Advances (e ∷ errors) r w y g =
    subst (Advances (awaiting r w)) (some_inj g) (omega arith, λ h. tt)

when_some : (b : Bool) (x y : Relay) → (if b then some x else none) ≡ some y → x ≡ y
when_some true x y g = some_inj g
when_some false x y g = cc

step-Advances : (gone : Bool) (p : Pick) (x y : Relay) → relay_step gone p x ≡ some y → Advances x y
unfolding relay_step
step-Advances gone pick_start (awaiting r w) y g = await_start-Advances r.start r w y g
step-Advances gone pick_err (awaiting r w) y g = await_err-Advances r.err r w y g
step-Advances gone pick_done (awaiting r w) y g =
    subst (Advances (awaiting r w)) (when_some r.done (await_done r.start r.err r w) y g)
      (await_done-Advances r.start r.err r w)
step-Advances true pick_context (awaiting r w) y g =
    subst (Advances (awaiting r w)) (some_inj g) (omega arith, λ h. tt)
step-Advances false pick_context (awaiting r w) y g = cc
step-Advances gone pick_body (awaiting r w) y g = cc
step-Advances gone pick_body (streaming r w) y g = stream_body-Advances r r.body w y refl g
step-Advances gone pick_done (streaming r w) y g =
    subst (Advances (streaming r w)) (when_some r.done (drain r.body r.err w) y g)
      (drain-Advances r.body r.err w (streaming r w) (omega arith))
step-Advances true pick_context (streaming r w) y g =
    subst (Advances (streaming r w)) (some_inj g) (omega arith, λ h. tt)
step-Advances false pick_context (streaming r w) y g = cc
step-Advances gone pick_start (streaming r w) y g = cc
step-Advances gone pick_err (streaming r w) y g = cc
step-Advances gone p (returned o w) y g = cc

Takes-Advances :
    (x : Relay) {n : ℕ} {y : Relay}
    → Takes x n y
    → (n + cases_left y ≤ cases_left x) × (IsEnded x → IsEnded y)
Takes-Advances x takes_none = (omega arith, λ h. h)
Takes-Advances x (takes_one {n} {y} {z} gone p t e) =
    let (fewer, ended) = Takes-Advances x t in
    let (less, still) = step-Advances gone p y z e in
    (omega (arith, fewer, less), λ h. still (ended h))

ended_ready :
    (gone : Bool) (y : Relay)
    → IsEnded y
    → IsReturned y ⊎ ((z : Relay) × (relay_step gone pick_done y ≡ some z))
unfolding relay_step
ended_ready gone (awaiting r w) h = inr (await_done r.start r.err r w, rw h refl)
ended_ready gone (streaming r w) h = inr (drain r.body r.err w, rw h refl)
ended_ready gone (returned o w) h = inl tt

-- Once its request is over, the handler returns, whichever ready cases Go picks: from a request with
-- `k` chunks in its queue it takes at most `k + 2` cases, and at each one it either has returned or finds
-- a case ready, so that it never waits again.
pub handler_returns :
    (x y : Relay) (n : ℕ) (gone : Bool)
    → IsEnded x
    → Takes x n y
    → (n + cases_left y ≤ cases_left x)
      × (IsReturned y ⊎ ((z : Relay) × (relay_step gone pick_done y ≡ some z)))
handler_returns x y n gone h t =
    let (fewer, ended) = Takes-Advances x t in (fewer, ended_ready gone y (ended h))
