-- ===== src/Perf/Summary.antt =====
-- cmd/perf-client/main.go, `loadSummary`: what the load generator keeps of its requests. The counters
-- are 64-bit integers, and a latency, the difference of two readings of a clock that does not go back,
-- is a number of nanoseconds below `2 ^ 63`.
pub mod Tallies
pub mod Tests
use muxbridge.Base.{
  ℕ, ◌+◌, ◌*◌, ◌-◌, ◌/◌, ◌%◌, ◌^◌, Bool, true, false, not, ◌&&◌, ◌||◌, Option, none, some, List, [],
  ◌∷◌, ◌++◌, ltb, leb, ◌==◌, if◌then◌else◌, Bytes, lookup, insert, nat_eq, ◌>>=◌,
}
use muxbridge.Server.State.{natural}
use muxbridge.Perf.Histogram.{Histogram, new_latency_histogram, increment, observe}

-- `StatusCode` is 0 where there was no response.
pub record RequestResult : Type 0 where
  pub status_code : ℕ
  pub bytes : ℕ
  pub latency : ℕ
  pub err : Option Bytes

pub record LoadSummary : Type 0 where
  pub total_requests : ℕ
  pub successful_responses : ℕ
  pub request_errors : ℕ
  pub response_bytes : ℕ
  pub status_counts : List (ℕ × ℕ)
  pub min_latency : ℕ
  pub max_latency : ℕ
  pub latency_sum : ℕ
  pub latency_histogram : Histogram

abbrev pub latency_bucket_width : ℕ
latency_bucket_width = 1_000_000

abbrev pub latency_bucket_limit : ℕ
latency_bucket_limit = 60_000_000_000

unfoldable pub new_load_summary : LoadSummary
new_load_summary = record {
  total_requests = 0;
  successful_responses = 0;
  request_errors = 0;
  response_bytes = 0;
  status_counts = [];
  min_latency = 0;
  max_latency = 0;
  latency_sum = 0;
  latency_histogram = new_latency_histogram latency_bucket_width latency_bucket_limit;
}

-- The count of a status, 0 where the map has none.
unfoldable pub status_count : ℕ → List (ℕ × ℕ) → ℕ
status_count code counts = elim (lookup code counts) [ none ↦ 0 | some n ↦ n ]

unfoldable pub count_status : ℕ → List (ℕ × ℕ) → List (ℕ × ℕ)
unfolding status_count
count_status code counts =
    if code == 0 then counts else insert code (increment (status_count code counts)) counts

-- The error decides whether the request counts as a success.
unfoldable pub settle_result : Option Bytes → LoadSummary → LoadSummary
settle_result (some e) s = record s { request_errors = increment s.request_errors }
settle_result none s = record s { successful_responses = increment s.successful_responses }

unfoldable pub tally : RequestResult → Histogram → LoadSummary → LoadSummary
unfolding count_status settle_result
tally r h s = settle_result r.err (record s {
  total_requests = increment s.total_requests;
  latency_sum = (s.latency_sum + r.latency) % 2 ^ 64;
  latency_histogram = h;
  min_latency =
      if s.min_latency == 0 || ltb r.latency s.min_latency then r.latency else s.min_latency;
  max_latency = if ltb s.max_latency r.latency then r.latency else s.max_latency;
  status_counts = count_status r.status_code s.status_counts;
  response_bytes = (s.response_bytes + r.bytes) % 2 ^ 64;
})

-- `Record`
unfoldable pub record_result : RequestResult → LoadSummary → Option LoadSummary
unfolding tally
record_result r s = elim (observe (natural r.latency) s.latency_histogram) [
  | none ↦ none
  | some h ↦ some (tally r h s)
]

-- The loop of `runLoad` over its results, with the last result first.
unfoldable pub record_results : List RequestResult → Option LoadSummary
record_results [] = some new_load_summary
record_results (r ∷ rs) = record_results rs >>= record_result r

-- `elapsed`: the times are numbers, `started` and `ended`, of nanoseconds.
unfoldable pub elapsed : ℕ → ℕ → ℕ → ℕ
elapsed planned started ended = if ltb started ended then ended - started else planned

-- `avgLatency`, for sums and totals below `2 ^ 63`.
unfoldable pub avg_latency : LoadSummary → ℕ
avg_latency s = if s.total_requests == 0 then 0 else s.latency_sum / s.total_requests
