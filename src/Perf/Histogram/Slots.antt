-- ===== src/Perf/Histogram/Slots.antt =====
-- The bucket of a latency, and the latency that stands for a bucket.
use muxbridge.Base.{ℕ, ◌+◌, ◌*◌, ◌/◌, ◌≤◌, ◌<◌, ◌≡◌, ltb, if◌then◌else◌, arith}
use muxbridge.Perf.Histogram.{bucket_count}
use native.Mathlib.Omega.{div_any}
use native.Mathlib.Nat.{mod-lt, mul-add, mul_comm, mul-le-mul_left}

-- The latency rounded down to a multiple of the bucket's width, or `overflow_from`.
abbrev pub rounded : ℕ → ℕ → ℕ → ℕ
rounded bucket_width overflow_from latency =
    if ltb latency overflow_from then latency / bucket_width * bucket_width else overflow_from

mul_mono : (k a b : ℕ) → a ≤ b → k * a ≤ k * b
mul_mono k a b h = mul-le-mul_left k h

module _ (w o : ℕ) where
  abbrev pub slot : ℕ → ℕ
  slot l = if ltb l o then l / w else bucket_count w o

  abbrev pub value : ℕ → ℕ
  value i = if ltb i (bucket_count w o) then i * w else o

  below_count : 0 < w → o ≤ w * bucket_count w o
  unfolding bucket_count
  below_count h = ground (arith, div_any o w, mod-lt o h, mul-add w (o / w) 1)

  mul_below : (i : ℕ) → 0 < w → i < bucket_count w o → i * w < o
  unfolding bucket_count
  mul_below i h b = ground (
    arith,
    div_any o w,
    mod-lt o h,
    mul_comm i w,
    mul-add w i 1,
    mul_mono w i (o / w),
    mul_mono w (i + 1) (o / w),
  )

  pub div_below : (l : ℕ) → 0 < w → l < o → l / w < bucket_count w o
  div_below l h b =
      ground (arith, div_any l w, below_count h, mul_mono w (bucket_count w o) (l / w))

  pub slot_le : (l : ℕ) → 0 < w → slot l ≤ bucket_count w o
  slot_le l h = ground (arith, div_below l h)

  pub rounded-slot : (l : ℕ) → 0 < w → rounded w o l ≡ value (slot l)
  rounded-slot l h = ground (arith, div_below l h)

  pub value_mono : (i j : ℕ) → 0 < w → i < j → j ≤ bucket_count w o → value i < value j
  value_mono i j h b k =
      ground (arith, mul_below i h, mul_mono w (i + 1) j, mul_comm i w, mul_comm j w, mul-add w i 1)
