-- ===== src/Perf/Histogram/Percentiles.antt =====
-- What a percentile says of the latencies.
use muxbridge.Base.{
  ℕ, suc, ◌+◌, ◌*◌, ◌%◌, ◌^◌, ◌≤◌, ◌<◌, ◌≡◌, inl, inr, refl, sym, ap, ◌∙◌, subst, some, List, [],
  ◌∷◌, ltb, leb, ◌==◌, if◌then◌else◌, arith, length, Bool-cases, zero_right, zero_left, suc_one,
  one_moves,
}
use muxbridge.Server.State.{Signed}
use muxbridge.Perf.Histogram.{
  Histogram, bucket_count, new_latency_histogram, clamp, scan, percentile,
}
use muxbridge.Perf.Histogram.Slots.{rounded, slot, value, slot_le, rounded-slot, value_mono}
use muxbridge.Perf.Histogram.Counts.{
  count, count_le, count_ext, observe_all, bucket, Holds, falls, observed-Holds,
}

-- How many of the latencies fall into a bucket before the one given.
abbrev below : ℕ → ℕ → ℕ → List Signed → ℕ
below w o k = count (λ l. ltb (slot w o (clamp l)) k)

below-suc :
    (w o k : ℕ) (ls : List Signed) → below w o (suc k) ls ≡ below w o k ls + count (falls w o k) ls
below-suc w o k [] = refl
below-suc w o k (l ∷ ls) = ground (arith, below-suc w o k ls)

below_all : (w o : ℕ) (ls : List Signed) → 0 < w → below w o (bucket_count w o + 1) ls ≡ length ls
below_all w o [] pos = refl
below_all w o (l ∷ ls) pos = ground (arith, slot_le w o (clamp l) pos, below_all w o ls pos)

module _ (w o t : ℕ) (ls : List Signed) where
  -- The latency `r` stands for the bucket of the `t`-th smallest latency.
  abbrev IsFound : ℕ → Type 0
  IsFound r =
      (k : ℕ) × (k ≤ bucket_count w o)
      × (r ≡ value w o k)
      × (below w o k ls < t)
      × (t ≤ below w o (suc k) ls)

  last_value :
      (i : ℕ) (bs : List ℕ)
      → suc (length bs) + i ≡ bucket_count w o + 1
      → (if length bs == 0 then o else i * w) ≡ value w o i
  last_value i bs size = ground arith

  scan-IsFound :
      (i seen : ℕ) (bs : List ℕ)
      → seen ≡ below w o i ls
      → seen < t
      → t ≤ length ls
      → length ls < 2 ^ 64
      → 0 < w
      → length bs + i ≡ bucket_count w o + 1
      → ((j : ℕ) → bucket j bs ≡ count (falls w o (i + j)) ls)
      → IsFound (scan w o t i seen bs)
  unfolding scan
  scan-IsFound i seen [] e lt le fits pos size counts =
      absurd (ground (arith, below_all w o ls pos, ap (λ x. below w o x ls) size))
  scan-IsFound i seen (b ∷ bs) e lt le fits pos size counts =
      let sum : (seen + b) % 2 ^ 64 ≡ below w o (suc i) ls = ground (
        arith,
        below-suc w o i ls,
        e,
        counts 0,
        ap (λ x. count (falls w o x) ls) (zero_right i),
        count_le (λ l. ltb (slot w o (clamp l)) (suc i)) ls,
      ) in
      elim (Bool-cases (ltb ((seen + b) % 2 ^ 64) t)) [
        | inl more ↦
            rw (more, scan)
              (scan-IsFound (i + 1) ((seen + b) % 2 ^ 64) bs
                (sum ∙ ap (λ x. below w o x ls) (suc_one i)) (ground arith) le fits pos
                (ground arith)
                (λ j. counts (suc j) ∙ ap (λ x. count (falls w o x) ls) (sym (one_moves i j))))
        | inr found ↦ (
          i,
          ground (arith, size),
          rw (found, scan) (last_value i bs size),
          ground (arith, e),
          ground (arith, sum),
        )
      ]

-- The target of a percentile.
abbrev pub target_of : (ℕ → ℕ → ℕ) → ℕ → ℕ → ℕ
target_of share percent total =
    let target = share (if leb 100 percent then 100 else percent) total in
    if target == 0 then 1 else target

target_positive : (share : ℕ → ℕ → ℕ) (percent total : ℕ) → 0 < target_of share percent total
target_positive share percent total = ground arith

none_below : (w o : ℕ) (ls : List Signed) → 0 ≡ below w o 0 ls
none_below w o [] = refl
none_below w o (l ∷ ls) = ground (arith, none_below w o ls)

percentile-scan :
    (share : ℕ → ℕ → ℕ) (percent : ℕ) (h : Histogram)
    → 0 < percent
    → 0 < h.total
    → percentile share percent h
      ≡ scan h.bucket_width h.overflow_from (target_of share percent h.total) 0 0 h.buckets
unfolding percentile
percentile-scan share percent h some_ more = ground arith

percentile-IsFound :
    (share : ℕ → ℕ → ℕ) (w o percent : ℕ) (ls : List Signed) (h : Histogram)
    → 0 < w
    → 0 < percent
    → 0 < length ls
    → length ls < 2 ^ 64
    → target_of share percent (length ls) ≤ length ls
    → Holds w o (length ls) (λ k. count (falls w o k) ls) h
    → IsFound w o (target_of share percent (length ls)) ls (percentile share percent h)
percentile-IsFound share w o percent ls h pos some_ more fits le holds =
    let same_scan =
      percentile-scan share percent h some_ (ground (arith, holds.total))
      ∙ ap (λ x. scan x h.overflow_from (target_of share percent h.total) 0 0 h.buckets) holds.width
      ∙ ap (λ x. scan w x (target_of share percent h.total) 0 0 h.buckets) holds.from
      ∙ ap (λ x. scan w o (target_of share percent x) 0 0 h.buckets) holds.total in
    subst (IsFound w o (target_of share percent (length ls)) ls) (sym same_scan) (
      scan-IsFound w o (target_of share percent (length ls)) ls 0 0 h.buckets (none_below w o ls)
        (target_positive share percent (length ls)) le fits pos (ground (arith, holds.size))
        (λ j. holds.counts j ∙ ap (λ x. count (falls w o x) ls) (sym (zero_left j))))

value_cong : (w o i j : ℕ) → i ≡ j → value w o i ≡ value w o j
value_cong w o i j e = ap (value w o) e

-- Rounded latencies are in the order of their buckets.
rounded-ltb :
    (w o k l : ℕ)
    → 0 < w
    → k ≤ bucket_count w o
    → ltb (rounded w o l) (value w o k) ≡ ltb (slot w o l) k
rounded-ltb w o k l pos le = ground (
  arith,
  rounded-slot w o l pos,
  slot_le w o l pos,
  value_cong w o (slot w o l) k,
  value_mono w o (slot w o l) k pos,
  value_mono w o k (slot w o l) pos,
)

rounded-leb :
    (w o k l : ℕ)
    → 0 < w
    → k ≤ bucket_count w o
    → leb (rounded w o l) (value w o k) ≡ ltb (slot w o l) (suc k)
rounded-leb w o k l pos le = ground (
  arith,
  rounded-slot w o l pos,
  slot_le w o l pos,
  value_cong w o (slot w o l) k,
  value_mono w o (slot w o l) k pos,
  value_mono w o k (slot w o l) pos,
)

-- A search that found a bucket, in the latencies themselves.
IsFound-rounded :
    (w o t r : ℕ) (ls : List Signed)
    → 0 < w
    → IsFound w o t ls r
    → (count (λ l. ltb (rounded w o (clamp l)) r) ls < t)
      × (t ≤ count (λ l. leb (rounded w o (clamp l)) r) ls)
IsFound-rounded w o t r ls pos (k, le, e, lt, ge) = (
  ground (
    arith,
    count_ext (λ l. ltb (rounded w o (clamp l)) r) (λ l. ltb (slot w o (clamp l)) k) ls
        (λ l. ap (ltb (rounded w o (clamp l))) e ∙ rounded-ltb w o k (clamp l) pos le),
  ),
  ground (
    arith,
    count_ext (λ l. leb (rounded w o (clamp l)) r) (λ l. ltb (slot w o (clamp l)) (suc k)) ls
        (λ l. ap (leb (rounded w o (clamp l))) e ∙ rounded-leb w o k (clamp l) pos le),
  ),
)

-- For buckets of a positive width and up to `2 ^ 64 - 1` latencies, a new histogram takes them all
-- without a panic; and a percentile above 0, whose target (the share of the number of latencies, and at
-- least 1) is not above that number, is the latency of that rank in the order of the rounded latencies:
-- fewer than the target are below it, and at least as many as the target are not above it.
pub percentile_rank :
    (share : ℕ → ℕ → ℕ) (w o percent : ℕ) (ls : List Signed)
    → 0 < w
    → 0 < percent
    → 0 < length ls
    → length ls < 2 ^ 64
    → target_of share percent (length ls) ≤ length ls
    → (h : Histogram) × (observe_all ls (new_latency_histogram w o) ≡ some h)
      × (count (λ l. ltb (rounded w o (clamp l)) (percentile share percent h)) ls
          < target_of share percent (length ls))
      × (target_of share percent (length ls)
          ≤ count (λ l. leb (rounded w o (clamp l)) (percentile share percent h)) ls)
percentile_rank share w o percent ls pos some_ more fits le =
    let (h, e, holds) = observed-Holds w o ls pos fits in
    let (lt, ge) =
      IsFound-rounded w o (target_of share percent (length ls)) (percentile share percent h) ls pos
        (percentile-IsFound share w o percent ls h pos some_ more fits le holds) in
    (h, e, lt, ge)
