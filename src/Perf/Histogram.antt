-- ===== src/Perf/Histogram.antt =====
-- cmd/perf-client/main.go, `latencyHistogram`. A duration is in nanoseconds; the counters are 64-bit
-- integers. `none` is the panic of an index out of range.
mod Slots
pub mod Counts
pub mod Percentiles
pub mod Tests
use muxbridge.Base.{
  ℕ, zero, suc, ◌+◌, ◌*◌, ◌-◌, ◌/◌, ◌%◌, ◌^◌, Bool, true, false, Option, none, some, List, [], ◌∷◌,
  ltb, leb, ◌==◌, if◌then◌else◌, length,
}
use muxbridge.Server.State.{Signed, natural, negative}

pub record Histogram : Type 0 where
  pub bucket_width : ℕ
  pub overflow_from : ℕ
  pub buckets : List ℕ
  pub total : ℕ

zeros : ℕ → List ℕ
zeros zero = []
zeros (suc n) = 0 ∷ zeros n

-- The number of buckets below the last one, which takes what is at `overflow_from` or above.
unfoldable pub bucket_count : ℕ → ℕ → ℕ
bucket_count bucket_width overflow_from =
    if overflow_from % bucket_width == 0
    then overflow_from / bucket_width
    else overflow_from / bucket_width + 1

unfoldable pub new_latency_histogram : ℕ → ℕ → Histogram
unfolding zeros bucket_count
new_latency_histogram bucket_width overflow_from = record {
  bucket_width = bucket_width;
  overflow_from = overflow_from;
  buckets = zeros (bucket_count bucket_width overflow_from + 1);
  total = 0;
}

unfoldable pub increment : ℕ → ℕ
increment n = (n + 1) % 2 ^ 64

-- `buckets[index]++`
unfoldable pub bump : ℕ → List ℕ → Option (List ℕ)
unfolding increment
bump index [] = none
bump zero (n ∷ ns) = some (increment n ∷ ns)
bump (suc index) (n ∷ ns) = elim (bump index ns) [ none ↦ none | some ms ↦ some (n ∷ ms) ]

-- A negative latency counts as 0.
unfoldable pub clamp : Signed → ℕ
clamp (natural n) = n
clamp (negative n) = 0

unfoldable pub index_of : ℕ → Histogram → ℕ
index_of latency h =
    if ltb latency h.overflow_from then latency / h.bucket_width else length h.buckets - 1

unfoldable pub observe : Signed → Histogram → Option Histogram
unfolding clamp index_of bump
observe latency h = elim (bump (index_of (clamp latency) h) h.buckets) [
  | none ↦ none
  | some buckets ↦ some (record h { buckets = buckets; total = increment h.total })
]

-- The search from a bucket on, with the sum of the ones before it.
unfoldable pub scan : ℕ → ℕ → ℕ → ℕ → ℕ → List ℕ → ℕ
scan bucket_width overflow_from target index seen [] = overflow_from
scan bucket_width overflow_from target index seen (count ∷ rest) =
    let later = scan bucket_width overflow_from target (index + 1) ((seen + count) % 2 ^ 64) rest in
    if ltb ((seen + count) % 2 ^ 64) target
    then later
    else if length rest == 0
    then overflow_from
    else index * bucket_width

-- `Percentile` for a whole number of percent. `share` is the conversion of
-- `math.Ceil(percent / 100 * float64(total))` to an integer, in floating point.
unfoldable pub percentile : (ℕ → ℕ → ℕ) → ℕ → Histogram → ℕ
percentile share percent h =
    if h.total == 0
    then 0
    else if percent == 0
    then 0
    else let target = share (if leb 100 percent then 100 else percent) h.total in
      scan h.bucket_width h.overflow_from (if target == 0 then 1 else target) 0 0 h.buckets
