-- ===== src/Perf/Load/Tests.antt =====
-- A host that is ready at the second probe, and runs that fail.
use muxbridge.Base.{ℕ, suc, ◌≡◌, ◌↔◌, refl, false, Option, none, some, List, [], ◌∷◌, codes, same}
use muxbridge.Base.Result.{ok}
use muxbridge.Base.Text.{trim_space, trim_left, trim_right, push_kept, to_lower}
use muxbridge.Server.State.{natural}
use muxbridge.Perf.Options.{is_positive}
use muxbridge.Perf.Options.Tests.{sample}
use muxbridge.Perf.Scenario.{load_scenario}
use muxbridge.Perf.Load.{
  make_clients, nil_client, run_load_clients, Probe, probed, wake_timer, wake_context, is_ready,
  tunnel_exited_cleanly, host_not_ready, wait_for_ready, run, client_refused,
}
use muxbridge.Perf.Load.Waits.{IsSeenReady, wait_for_ready_iff}

abbrev two_probes : List Probe
two_probes = probed (some 502) wake_timer ∷ probed (some 200) (wake_context (codes "late")) ∷ []

wait_for_ready_iff_example : (wait_for_ready two_probes ≡ is_ready) ↔ IsSeenReady two_probes
wait_for_ready_iff_example = wait_for_ready_iff two_probes

-- The factory gives clients to the workers 0 and 1 alone.
abbrev two_clients : ℕ → Option ℕ
two_clients ℕ.zero = some 10
two_clients (suc ℕ.zero) = some 11
two_clients (suc (suc n)) = none

run_load_clients_test :
    run_load_clients (natural 4) (natural 1) (some two_clients)
    ≡ record { made = []; closed = 10 ∷ 11 ∷ []; failed = some (nil_client 2) }
unfolding run_load_clients make_clients is_positive
run_load_clients_test = refl

run_test :
    (run (ok sample) (some (codes "no token")) none (ok [])
      ≡ record { error = some (client_refused (codes "no token")); printed = false; closes = 0 })
    × (run (ok sample) none (some tunnel_exited_cleanly) (ok []) ≡ record {
      error = some (host_not_ready (codes "perf.example.com") tunnel_exited_cleanly);
      printed = false;
      closes = 1;
    })
unfolding run load_scenario same trim_space trim_left trim_right push_kept to_lower
run_test = (refl, refl)
