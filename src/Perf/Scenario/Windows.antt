-- ===== src/Perf/Scenario/Windows.antt =====
-- What a worker sends in one round of its scenario.
use muxbridge.Base.{
  ℕ, zero, suc, ◌+◌, ◌%◌, ◌^◌, ◌≤◌, ◌<◌, ◌≡◌, refl, sym, ap, ◌∙◌, Option, none, some, List, [], ◌∷◌,
  if◌then◌else◌, arith, length, Bytes, same, zero_right, zero_left, suc_one, one_moves,
}
use native.Mathlib.Nat.{mod-eq_of_lt, add-mod_right}
use muxbridge.Perf.Scenario.{Scenario, nth, request_for}

-- How often the path is among the requests.
abbrev pub times : Bytes → List Bytes → ℕ
times path [] = 0
times path (x ∷ xs) = (if same x path then 1 else 0) + times path xs

abbrev hits : Bytes → Option Bytes → ℕ
hits path none = 0
hits path (some x) = if same x path then 1 else 0

-- How often the worker sends the path in `n` iterations, from the one given on.
abbrev pub sends : Scenario → Bytes → ℕ → ℕ → ℕ → ℕ
sends s path worker iteration zero = 0
sends s path worker iteration (suc n) =
    hits path (request_for s worker iteration) + sends s path worker (iteration + 1) n

nth_first : (x : Bytes) (xs : List Bytes) → nth 0 (x ∷ xs) ≡ some x
unfolding nth
nth_first x xs = refl

nth_later : (x : Bytes) (xs : List Bytes) (i : ℕ) → nth (suc i) (x ∷ xs) ≡ nth i xs
unfolding nth
nth_later x xs i = refl

module _ (path : Bytes) (xs : List Bytes) where
  -- Whether a sum of worker and iteration gives the path.
  abbrev at_sum : ℕ → ℕ
  at_sum k = hits path (nth (k % length xs) xs)

  abbrev window : ℕ → ℕ → ℕ
  window k zero = 0
  window k (suc m) = at_sum k + window (k + 1) m

  window-last : (k m : ℕ) → window k (suc m) ≡ window k m + at_sum (k + m)
  window-last k zero = ground (arith, ap at_sum (zero_right k))
  window-last k (suc m) = ground (arith, window-last (k + 1) m, ap at_sum (one_moves k m))

  at_sum-shift : (k : ℕ) → at_sum (k + length xs) ≡ at_sum k
  at_sum-shift k = ap (λ i. hits path (nth i xs)) (add-mod_right k (length xs))

  window-shift : (k : ℕ) → window (k + 1) (length xs) ≡ window k (length xs)
  window-shift k = ground (arith, window-last k (length xs), at_sum-shift k)

  window-zero : (k : ℕ) → window k (length xs) ≡ window 0 (length xs)
  window-zero zero = refl
  window-zero (suc k) = ap (λ i. window i (length xs)) (suc_one k) ∙ window-shift k ∙ window-zero k

  -- The rest of the requests, from `k` on.
  window-times :
      (k : ℕ) (ys : List Bytes)
      → ((j : ℕ) → nth (k + j) xs ≡ nth j ys)
      → length ys + k ≡ length xs
      → window k (length ys) ≡ times path ys
  window-times k [] h e = refl
  window-times k (y ∷ ys) h e =
      let first : at_sum k ≡ hits path (nth 0 (y ∷ ys)) =
        ap (λ i. hits path (nth i xs)) (mod-eq_of_lt (ground arith) ∙ sym (zero_right k))
        ∙ ap (hits path) (h 0) in
      ground (
        arith,
        first,
        nth_first y ys,
        ap (hits path) (nth_first y ys),
        window-times (k + 1) ys
            (λ j. ap (λ i. nth i xs) (one_moves k j) ∙ h (suc j) ∙ nth_later y ys j) (ground arith),
      )

  pub window-eq-times : (k : ℕ) → window k (length xs) ≡ times path xs
  window-eq-times k =
      window-zero k ∙ window-times 0 xs (λ j. ap (λ i. nth i xs) (zero_left j)) (ground arith)

request_for_lem :
    (s : Scenario) (worker iteration : ℕ)
    → 0 < length s.requests
    → worker + iteration < 2 ^ 63
    → request_for s worker iteration ≡ nth ((worker + iteration) % length s.requests) s.requests
unfolding request_for
request_for_lem s worker iteration some_ fits = ground arith

add_one : (a b : ℕ) → a + (b + 1) ≡ a + b + 1
add_one a b = omega arith

sends-window :
    (s : Scenario) (path : Bytes) (worker iteration n : ℕ)
    → 0 < length s.requests
    → worker + iteration + n ≤ 2 ^ 63
    → sends s path worker iteration n ≡ window path s.requests (worker + iteration) n
sends-window s path worker iteration zero some_ fits = refl
sends-window s path worker iteration (suc n) some_ fits = ground (
  arith,
  ap (hits path) (request_for_lem s worker iteration some_ (omega (arith, fits))),
  ap (λ k. window path s.requests k n) (add_one worker iteration),
  sends-window s path worker (iteration + 1) n some_ (omega (arith, fits)),
)

-- In as many iterations in a row as its scenario has requests, wherever they start and whichever the
-- worker, as long as the sums stay below `2 ^ 63`, a worker sends each path exactly as often as the
-- scenario lists it.
pub sends_round :
    (s : Scenario) (path : Bytes) (worker iteration : ℕ)
    → 0 < length s.requests
    → worker + iteration + length s.requests ≤ 2 ^ 63
    → sends s path worker iteration (length s.requests) ≡ times path s.requests
sends_round s path worker iteration some_ fits =
    sends-window s path worker iteration (length s.requests) some_ fits
    ∙ window-eq-times path s.requests (worker + iteration)
