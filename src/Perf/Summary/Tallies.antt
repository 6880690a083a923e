-- ===== src/Perf/Summary/Tallies.antt =====
-- What the summary says of the results.
use muxbridge.Base.{
  ℕ, suc, ◌+◌, ◌%◌, ◌^◌, ◌≤◌, ◌<◌, ◌≡◌, refl, sym, subst, Bool, true, false, not, none, some, List,
  [], ◌∷◌, ltb, ◌==◌, if◌then◌else◌, arith, length, suc_one, lookup, lookup-insert, nat_eq, ==_iff,
}
use muxbridge.Server.State.{natural}
use muxbridge.Perf.Histogram.{Histogram, increment, observe}
use muxbridge.Perf.Histogram.Counts.{
  count, count_le, increment_fits, Holds, falls, new-Holds, observe-Holds,
}
use muxbridge.Perf.Summary.{
  RequestResult, LoadSummary, new_load_summary, latency_bucket_width, latency_bucket_limit,
  status_count, count_status, settle_result, tally, record_result, record_results,
}

abbrev pub failed : RequestResult → Bool
failed r = elim r.err [ none ↦ false | some e ↦ true ]

-- The greatest latency, 0 of none.
abbrev pub greatest : List RequestResult → ℕ
greatest [] = 0
greatest (r ∷ rs) = if ltb (greatest rs) r.latency then r.latency else greatest rs

abbrev pub sum_of : (RequestResult → ℕ) → List RequestResult → ℕ
sum_of f [] = 0
sum_of f (r ∷ rs) = sum_of f rs + f r

-- The summary of the results.
pub record IsTally (rs : List RequestResult) (s : LoadSummary) : Type 0 where
  pub total : s.total_requests ≡ length rs
  pub errors : s.request_errors ≡ count failed rs
  pub successes : s.successful_responses ≡ count (λ r. not (failed r)) rs
  pub bytes : s.response_bytes ≡ sum_of (λ r. r.bytes) rs % 2 ^ 64
  pub latencies : s.latency_sum ≡ sum_of (λ r. r.latency) rs % 2 ^ 64
  pub greatest_latency : s.max_latency ≡ greatest rs
  pub statuses :
      (code : ℕ)
      → 0 < code
      → status_count code s.status_counts ≡ count (λ r. code == r.status_code) rs

count_status-status_count :
    (code k n : ℕ) (counts : List (ℕ × ℕ))
    → 0 < code
    → status_count code counts ≡ n
    → n + 1 < 2 ^ 64
    → status_count code (count_status k counts) ≡ (if code == k then 1 else 0) + n
unfolding count_status status_count
count_status-status_count code k n counts pos e fits = ground (
  arith,
  lookup-insert k code (increment (status_count k counts)) counts,
  ==_iff k code,
  increment_fits n fits,
)

tally-IsTally :
    (r : RequestResult) (h : Histogram) (rs : List RequestResult) (s : LoadSummary)
    → length rs + 1 < 2 ^ 64
    → IsTally rs s
    → IsTally (r ∷ rs) (tally r h s)
unfolding tally settle_result
tally-IsTally r h rs s fits t = record {
  total = ground (arith, t.total, increment_fits (length rs) fits);
  errors = ground (arith, t.errors, count_le failed rs, increment_fits s.request_errors);
  successes = ground (
    arith,
    t.successes,
    count_le (λ r. not (failed r)) rs,
    increment_fits s.successful_responses,
  );
  bytes = ground (arith, t.bytes);
  latencies = ground (arith, t.latencies);
  greatest_latency = ground (arith, t.greatest_latency);
  statuses = λ code pos. ground (
    arith,
    count_le (λ r. code == r.status_code) rs,
    count_status-status_count code r.status_code (count (λ r. code == r.status_code) rs)
        s.status_counts pos (t.statuses code pos),
  );
}

new-IsTally : IsTally [] new_load_summary
unfolding new_load_summary status_count lookup
new-IsTally = record {
  total = refl;
  errors = refl;
  successes = refl;
  bytes = refl;
  latencies = refl;
  greatest_latency = refl;
  statuses = λ code pos. refl;
}

-- The histogram of the summary has taken the latencies.
record IsMeasured (rs : List RequestResult) (s : LoadSummary) : Type 0 where
  counts : ℕ → ℕ
  bound : (k : ℕ) → counts k ≤ length rs
  holds : Holds latency_bucket_width latency_bucket_limit (length rs) counts s.latency_histogram

tally-latency_histogram :
    (r : RequestResult) (h : Histogram) (s : LoadSummary) → (tally r h s).latency_histogram ≡ h
unfolding tally settle_result
tally-latency_histogram r h s = ground arith

record_result-some :
    (r : RequestResult) (s : LoadSummary) (h : Histogram)
    → observe (natural r.latency) s.latency_histogram ≡ some h
    → record_result r s ≡ some (tally r h s)
unfolding record_result
record_result-some r s h e = rw (e, record_result) refl

record_result-IsTally :
    (r : RequestResult) (rs : List RequestResult) (s : LoadSummary)
    → length rs + 1 < 2 ^ 64
    → IsTally rs s
    → IsMeasured rs s
    → (s' : LoadSummary) × (record_result r s ≡ some s')
      × IsTally (r ∷ rs) s'
      × IsMeasured (r ∷ rs) s'
record_result-IsTally r rs s fits t m =
    let here : ℕ → ℕ =
      λ k. if falls latency_bucket_width latency_bucket_limit k (natural r.latency) then 1 else 0 in
    let (h, e, holds) =
      observe-Holds latency_bucket_width latency_bucket_limit (length rs) m.counts
        (natural r.latency) s.latency_histogram (omega arith) fits m.bound m.holds in
    (
      tally r h s,
      record_result-some r s h e,
      tally-IsTally r h rs s fits t,
      record {
        counts = λ k. m.counts k + here k;
        bound = λ k. ground (arith, m.bound k);
        holds =
            subst
              (λ x.
                Holds latency_bucket_width latency_bucket_limit (suc (length rs))
                  (λ k. m.counts k + here k) x)
              (sym (tally-latency_histogram r h s))
              (subst
                (λ n.
                  Holds latency_bucket_width latency_bucket_limit n (λ k. m.counts k + here k) h)
                (sym (suc_one (length rs))) holds);
      },
    )

new-IsMeasured : IsMeasured [] new_load_summary
unfolding new_load_summary
new-IsMeasured = record {
  counts = λ k. 0;
  bound = λ k. omega arith;
  holds = new-Holds latency_bucket_width latency_bucket_limit;
}

measured :
    (rs : List RequestResult)
    → length rs < 2 ^ 64
    → (s : LoadSummary) × (record_results rs ≡ some s) × IsTally rs s × IsMeasured rs s
unfolding record_results
measured [] fits = (new_load_summary, refl, new-IsTally, new-IsMeasured)
measured (r ∷ rs) fits =
    let (s, e, t, m) = measured rs (omega (arith, fits)) in
    let (s', e', t', m') = record_result-IsTally r rs s (omega (arith, fits)) t m in
    (s', rw (e, record_results) e', t', m')

-- Every list of up to `2 ^ 64 - 1` results gives a summary, and one that does not depend on their order
-- in what it counts: the number of requests, those that failed and those that did not, each status, the
-- greatest latency, and the sums of the bytes and the latencies as far as 64 bits hold them.
pub record_results-IsTally :
    (rs : List RequestResult)
    → length rs < 2 ^ 64
    → (s : LoadSummary) × (record_results rs ≡ some s) × IsTally rs s
record_results-IsTally rs fits = let (s, e, t, m) = measured rs fits in (s, e, t)
