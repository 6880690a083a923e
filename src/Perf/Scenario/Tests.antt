-- ===== src/Perf/Scenario/Tests.antt =====
-- One round of the mixed scenario.
use muxbridge.Base.{◌≡◌, refl, some, arith, length, codes, same}
use muxbridge.Base.Result.{ok}
use muxbridge.Base.Text.{trim_space, trim_left, trim_right, push_kept, to_lower}
use muxbridge.Perf.Scenario.{Scenario, load_scenario, mixed_requests, request_for, nth, repeat}
use muxbridge.Perf.Scenario.Windows.{sends, times, sends_round}

abbrev mixed : Scenario
mixed = record { name = codes "mixed"; requests = mixed_requests }

load_scenario_test : load_scenario (codes " Mixed ") ≡ ok mixed
unfolding load_scenario same trim_space trim_left trim_right push_kept to_lower
load_scenario_test = refl

request_for_test : request_for mixed 3 16 ≡ some (codes "/stream")
unfolding request_for nth mixed_requests repeat
request_for_test = refl

sends_round_example :
    sends mixed (codes "/bytes") 3 14 (length mixed.requests)
    ≡ times (codes "/bytes") mixed.requests
unfolding mixed_requests repeat
sends_round_example = sends_round mixed (codes "/bytes") 3 14 (omega arith) (omega arith)
