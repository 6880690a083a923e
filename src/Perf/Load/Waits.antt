-- ===== src/Perf/Load/Waits.antt =====
-- When the waits succeed, and what a run closes.
use muxbridge.Base.{
  ℕ, ◌≡◌, ◌↔◌, inl, inr, refl, ap, ◌∙◌, true, false, Option, none, some, List, [], ◌∷◌, ◌++◌, All,
  Bool-cases,
}
use muxbridge.Perf.Load.{
  Wake, wake_context, wake_tunnel, wake_timer, Probe, invalid, probed, is_ok_status, Readiness,
  is_ready, on_wake, wait_for_ready,
}

-- A probe that did not see the host ready, with a wait that ended at its timer.
abbrev pub IsRetried : Probe → Type 0
IsRetried (invalid e) = ⊥
IsRetried (probed status wake) = (is_ok_status status ≡ false) × (wake ≡ wake_timer)

-- The probes start with ones that were retried, and then one that saw the status 200.
abbrev pub IsSeenReady : List Probe → Type 0
IsSeenReady probes =
    (before : List Probe) × (status : Option ℕ) × (wake : Wake) × (after : List Probe) × (probes
      ≡ before ++ probed status wake ∷ after)
    × All IsRetried before
    × (is_ok_status status ≡ true)

on_wake-ready :
    (wake : Wake) (later : Readiness)
    → on_wake wake later ≡ is_ready
    → (wake ≡ wake_timer) × (later ≡ is_ready)
unfolding on_wake
on_wake-ready (wake_context e) later h = cc
on_wake-ready (wake_tunnel none) later h = cc
on_wake-ready (wake_tunnel (some e)) later h = cc
on_wake-ready wake_timer later h = (refl, h)

ready-IsSeenReady : (probes : List Probe) → wait_for_ready probes ≡ is_ready → IsSeenReady probes
unfolding wait_for_ready on_wake
ready-IsSeenReady [] e = cc
ready-IsSeenReady (invalid x ∷ rest) e = cc
ready-IsSeenReady (probed status wake ∷ rest) e = elim (Bool-cases (is_ok_status status)) [
  | inl seen ↦ ([], status, wake, rest, refl, tt, seen)
  | inr other ↦
      let (timer, later) =
        on_wake-ready wake (wait_for_ready rest) (rw (other, wait_for_ready) at e) in
      let (before, status', wake', after, parts, retried, seen) = ready-IsSeenReady rest later in
      (
        probed status wake ∷ before,
        status',
        wake',
        after,
        ap (◌∷◌ (probed status wake)) parts,
        ((other, timer), retried),
        seen,
      )
]

seen-ready :
    (before after : List Probe) (status : Option ℕ) (wake : Wake)
    → All IsRetried before
    → is_ok_status status ≡ true
    → wait_for_ready (before ++ probed status wake ∷ after) ≡ is_ready
unfolding wait_for_ready on_wake
seen-ready [] after status wake h seen = rw seen refl
seen-ready (invalid x ∷ before) after status wake h seen = absurd h.0
seen-ready (probed s w ∷ before) after status wake ((other, timer), h) seen =
    rw (other, timer) (seen-ready before after status wake h seen)

-- The wait for the public host succeeds exactly where some probe sees the status 200 and each one
-- before it was a probe without that status whose `select` took the case of its timer.
pub wait_for_ready_iff :
    (probes : List Probe) → (wait_for_ready probes ≡ is_ready) ↔ IsSeenReady probes
wait_for_ready_iff probes = (
  ready-IsSeenReady probes,
  λ (before, status, wake, after, parts, retried, seen).
      ap wait_for_ready parts ∙ seen-ready before after status wake retried seen,
)
