-- ===== src/Perf/Histogram/Tests.antt =====
-- Five latencies in buckets of 10, and an overflow from 25 on.
use muxbridge.Base.{ℕ, ◌+◌, ◌*◌, ◌/◌, ◌≤◌, ◌<◌, ◌≡◌, refl, some, List, [], ◌∷◌, arith, ltb, leb}
use muxbridge.Server.State.{Signed, natural, negative}
use muxbridge.Perf.Histogram.{
  Histogram, new_latency_histogram, zeros, bucket_count, observe, bump, increment, index_of, clamp,
  percentile, scan,
}
use muxbridge.Perf.Histogram.Slots.{rounded}
use muxbridge.Perf.Histogram.Counts.{count, observe_all}
use muxbridge.Perf.Histogram.Percentiles.{percentile_rank}

abbrev five : List Signed
five = natural 3 ∷ natural 30 ∷ negative 1 ∷ natural 17 ∷ natural 12 ∷ []

-- The exact share, rounded up.
abbrev exact : ℕ → ℕ → ℕ
exact percent total = (percent * total + 99) / 100

abbrev counted : Histogram
counted = record { bucket_width = 10; overflow_from = 25; buckets = 2 ∷ 2 ∷ 0 ∷ 1 ∷ []; total = 5 }

observe_all_test : observe_all five (new_latency_histogram 10 25) ≡ some counted
unfolding observe_all new_latency_histogram zeros bucket_count observe bump increment index_of clamp
observe_all_test = refl

percentile_test : (percentile exact 50 counted ≡ 10) × (percentile exact 99 counted ≡ 25)
unfolding percentile scan
percentile_test = (refl, refl)

percentile_rank_example :
    (h : Histogram) × (observe_all five (new_latency_histogram 10 25) ≡ some h)
    × (count (λ l. ltb (rounded 10 25 (clamp l)) (percentile exact 50 h)) five < 3)
    × (3 ≤ count (λ l. leb (rounded 10 25 (clamp l)) (percentile exact 50 h)) five)
percentile_rank_example =
    percentile_rank exact 10 25 50 five (omega arith) (omega arith) (omega arith) (omega arith)
      (omega arith)
