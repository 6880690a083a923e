-- ===== src/Perf/Summary/Tests.antt =====
-- Three requests, one of which fails.
use muxbridge.Base.{◌≡◌, refl, some, none, List, [], ◌∷◌, codes, arith}
use muxbridge.Perf.Summary.{
  RequestResult, LoadSummary, record_results, tally, new_load_summary, settle_result, elapsed,
}
use muxbridge.Perf.Summary.Tallies.{IsTally, record_results-IsTally}

abbrev three : List RequestResult
three =
    record { status_code = 200; bytes = 18; latency = 5; err = none }
    ∷ record { status_code = 0; bytes = 0; latency = 9; err = some (codes "timeout") }
    ∷ record { status_code = 200; bytes = 18; latency = 7; err = none }
    ∷ []

record_results-IsTally_example :
    (s : LoadSummary) × (record_results three ≡ some s) × IsTally three s
record_results-IsTally_example = record_results-IsTally three (omega arith)

elapsed_test : (elapsed 30 100 112 ≡ 12) × (elapsed 30 100 100 ≡ 30)
unfolding elapsed
elapsed_test = (refl, refl)

-- A latency of 0 does not stay the least one.
zero_latency_test :
    (tally
      (record { status_code = 200; bytes = 0; latency = 4; err = none })
      new_load_summary.latency_histogram
      (tally
        (record { status_code = 200; bytes = 0; latency = 0; err = none })
        new_load_summary.latency_histogram
        new_load_summary)).min_latency
    ≡ 4
unfolding tally settle_result new_load_summary
zero_latency_test = refl
