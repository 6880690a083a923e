-- ===== src/Perf/Histogram/Counts.antt =====
-- What a histogram holds behind a number of latencies.
use muxbridge.Base.{
  ℕ, zero, suc, ◌+◌, ◌^◌, ◌≤◌, ◌<◌, ◌≡◌, refl, ap, ◌∙◌, Bool, Option, none, some, List, [], ◌∷◌,
  ◌==◌, if◌then◌else◌, arith, length,
}
use muxbridge.Server.State.{Signed}
use muxbridge.Perf.Histogram.{
  Histogram, zeros, bucket_count, new_latency_histogram, increment, bump, clamp, index_of, observe,
}
use muxbridge.Perf.Histogram.Slots.{slot, slot_le}

-- How many of the elements pass the test.
abbrev pub count : {A : Type 0} → (A → Bool) → List A → ℕ
count p [] = 0
count p (x ∷ xs) = (if p x then 1 else 0) + count p xs

pub count_le : {A : Type 0} (p : A → Bool) (xs : List A) → count p xs ≤ length xs
count_le p [] = omega arith
count_le p (x ∷ xs) = ground (arith, count_le p xs)

pub count_ext :
    {A : Type 0} (p q : A → Bool) (xs : List A) → ((x : A) → p x ≡ q x) → count p xs ≡ count q xs
count_ext p q [] h = refl
count_ext p q (x ∷ xs) h = ground (arith, h x, count_ext p q xs h)

-- The latencies, one behind the other.
unfoldable pub observe_all : List Signed → Histogram → Option Histogram
observe_all [] h = some h
observe_all (l ∷ ls) h = elim (observe l h) [ none ↦ none | some h' ↦ observe_all ls h' ]

-- `buckets[k]`, 0 out of range.
abbrev pub bucket : ℕ → List ℕ → ℕ
bucket k [] = 0
bucket zero (n ∷ ns) = n
bucket (suc k) (n ∷ ns) = bucket k ns

-- The buckets behind an increment of the first one, and of a later one.
bucket_later :
    (n index k : ℕ) (ns ms : List ℕ)
    → ((j : ℕ) → bucket j ms ≡ (if j == index then increment (bucket j ns) else bucket j ns))
    → bucket k (n ∷ ms)
      ≡ (if k == suc index then increment (bucket k (n ∷ ns)) else bucket k (n ∷ ns))
bucket_later n index zero ns ms h = ground arith
bucket_later n index (suc k) ns ms h = h k ∙ ground arith

first_bump :
    (n : ℕ) (ns : List ℕ) (k : ℕ)
    → bucket k (increment n ∷ ns)
      ≡ (if k == 0 then increment (bucket k (n ∷ ns)) else bucket k (n ∷ ns))
first_bump n ns zero = refl
first_bump n ns (suc k) = ground arith

bump_lem :
    (index : ℕ) (ns : List ℕ)
    → index < length ns
    → (ms : List ℕ) × (bump index ns ≡ some ms)
      × (length ms ≡ length ns)
      × ((k : ℕ) → bucket k ms ≡ (if k == index then increment (bucket k ns) else bucket k ns))
unfolding bump
bump_lem index [] h = absurd (omega (arith, h))
bump_lem zero (n ∷ ns) h = (increment n ∷ ns, refl, refl, first_bump n ns)
bump_lem (suc index) (n ∷ ns) h =
    let (ms, e, l, c) = bump_lem index ns (omega (arith, h)) in
    (n ∷ ms, rw e refl, ap suc l, λ k. bucket_later n index k ns ms c)

length-zeros : (n : ℕ) → length (zeros n) ≡ n
unfolding zeros
length-zeros zero = refl
length-zeros (suc n) = ap suc (length-zeros n)

bucket-zeros : (k n : ℕ) → bucket k (zeros n) ≡ 0
unfolding zeros
bucket-zeros k zero = refl
bucket-zeros zero (suc n) = refl
bucket-zeros (suc k) (suc n) = bucket-zeros k n

-- What a histogram of the two sizes holds: `n` latencies, and `c k` of them in the bucket `k`.
pub record Holds (w o n : ℕ) (c : ℕ → ℕ) (h : Histogram) : Type 0 where
  pub width : h.bucket_width ≡ w
  pub from : h.overflow_from ≡ o
  pub total : h.total ≡ n
  pub size : length h.buckets ≡ bucket_count w o + 1
  pub counts : (k : ℕ) → bucket k h.buckets ≡ c k

pub new-Holds : (w o : ℕ) → Holds w o 0 (λ k. 0) (new_latency_histogram w o)
unfolding new_latency_histogram
new-Holds w o = record {
  width = refl;
  from = refl;
  total = refl;
  size = length-zeros (bucket_count w o + 1);
  counts = λ k. bucket-zeros k (bucket_count w o + 1);
}

-- Whether the latency belongs into the bucket.
abbrev pub falls : ℕ → ℕ → ℕ → Signed → Bool
falls w o k l = k == slot w o (clamp l)

pub increment_fits : (n : ℕ) → n + 1 < 2 ^ 64 → increment n ≡ n + 1
unfolding increment
increment_fits n h = omega (arith, h)

index_of-slot :
    (w o n : ℕ) (c : ℕ → ℕ) (l : ℕ) (h : Histogram) → Holds w o n c h → index_of l h ≡ slot w o l
unfolding index_of
index_of-slot w o n c l h holds = simp (holds.width, holds.from, holds.size) (ground arith)

counts_more :
    (k i n b a : ℕ)
    → n + 1 < 2 ^ 64
    → a ≤ n
    → b ≡ a
    → (if k == i then increment b else b) ≡ a + (if k == i then 1 else 0)
counts_more k i n b a fits bound e = ground (arith, increment_fits b)

observe-some :
    (l : Signed) (h : Histogram) (ms : List ℕ)
    → bump (index_of (clamp l) h) h.buckets ≡ some ms
    → observe l h ≡ some (record h { buckets = ms; total = increment h.total })
unfolding observe
observe-some l h ms e = rw (e, observe) refl

pub observe-Holds :
    (w o n : ℕ) (c : ℕ → ℕ) (l : Signed) (h : Histogram)
    → 0 < w
    → n + 1 < 2 ^ 64
    → ((k : ℕ) → c k ≤ n)
    → Holds w o n c h
    → (h' : Histogram) × (observe l h ≡ some h')
      × Holds w o (n + 1) (λ k. c k + (if falls w o k l then 1 else 0)) h'
observe-Holds w o n c l h pos fits bound holds =
    let at_slot = index_of-slot w o n c (clamp l) h holds in
    let (ms, e, size, counts) =
      bump_lem (index_of (clamp l) h) h.buckets
        (ground (arith, at_slot, slot_le w o (clamp l) pos, holds.size)) in
    (
      record h { buckets = ms; total = increment h.total },
      observe-some l h ms e,
      record {
        width = holds.width;
        from = holds.from;
        total = ground (arith, increment_fits n fits, holds.total, increment_fits h.total);
        size = size ∙ holds.size;
        counts = λ k.
            counts k
            ∙ ap (λ i. if k == i then increment (bucket k h.buckets) else bucket k h.buckets)
                at_slot
            ∙ counts_more k (slot w o (clamp l)) n (bucket k h.buckets) (c k) fits (bound k)
                (holds.counts k);
      },
    )

observe_all-Holds :
    (w o n : ℕ) (c : ℕ → ℕ) (ls : List Signed) (h : Histogram)
    → 0 < w
    → n + length ls < 2 ^ 64
    → ((k : ℕ) → c k ≤ n)
    → Holds w o n c h
    → (h' : Histogram) × (observe_all ls h ≡ some h')
      × Holds w o (n + length ls) (λ k. c k + count (falls w o k) ls) h'
unfolding observe_all
observe_all-Holds w o n c [] h pos fits bound holds = (
  h,
  refl,
  record {
    width = holds.width;
    from = holds.from;
    total = ground (arith, holds.total);
    size = holds.size;
    counts = λ k. ground (arith, holds.counts k);
  },
)
observe_all-Holds w o n c (l ∷ ls) h pos fits bound holds =
    let (h', e, one) = observe-Holds w o n c l h pos (omega (arith, fits)) bound holds in
    let (h'', f, more) =
      observe_all-Holds w o (n + 1) (λ k. c k + (if falls w o k l then 1 else 0)) ls h' pos
        (omega (arith, fits)) (λ k. ground (arith, bound k)) one in
    (
      h'',
      rw (e, observe_all) f,
      record {
        width = more.width;
        from = more.from;
        total = ground (arith, more.total);
        size = more.size;
        counts = λ k. ground (arith, more.counts k);
      },
    )

-- A new histogram takes fewer than `2 ^ 64` latencies without a panic, and counts each one in its
-- bucket.
pub observed-Holds :
    (w o : ℕ) (ls : List Signed)
    → 0 < w
    → length ls < 2 ^ 64
    → (h : Histogram) × (observe_all ls (new_latency_histogram w o) ≡ some h)
      × Holds w o (length ls) (λ k. count (falls w o k) ls) h
observed-Holds w o ls pos fits =
    let (h, e, holds) =
      observe_all-Holds w o 0 (λ k. 0) ls (new_latency_histogram w o) pos (omega (arith, fits))
        (λ k. omega arith) (new-Holds w o) in
    (
      h,
      e,
      record {
        width = holds.width;
        from = holds.from;
        total = ground (arith, holds.total);
        size = holds.size;
        counts = λ k. ground (arith, holds.counts k);
      },
    )
