-- ===== src/Base/Text/Quiet.antt =====
-- Texts that `strings.ToLower` and `strings.TrimSpace` leave alone, and cuts at a byte.
use muxbridge.Base.{
  ℕ, ◌≡◌, ◌≢◌, refl, ap, Bool, false, none, some, List, [], ◌∷◌, ◌++◌, ◌==◌, arith, ◌⊎◌, inl, inr,
  Bool-cases, ==_iff, All, Bytes,
}
use muxbridge.Base.Text.{
  lower, to_lower, is_space, trim_left, trim_right, push_kept, trim_space, contains, last_cut,
  last_head, split, add_to_first, trim_suffix,
}

abbrev pub IsQuiet : ℕ → Type 0
IsQuiet c = (lower c ≡ c) × (is_space c ≡ false)

abbrev pub Lacks : ℕ → Bytes → Type 0
Lacks b = All (λ c. c ≢ b)

unfoldable pub ends_with : ℕ → Bytes → Bool
ends_with b [] = false
ends_with b (c ∷ []) = c == b
ends_with b (c ∷ d ∷ s) = ends_with b (d ∷ s)

pub to_lower-eq_self : (s : Bytes) → All IsQuiet s → to_lower s ≡ s
unfolding to_lower
to_lower-eq_self [] h = refl
to_lower-eq_self (c ∷ s) (q, h) = cc (q.0, to_lower-eq_self s h)

lower_idem : (c : ℕ) → lower (lower c) ≡ lower c
unfolding lower
lower_idem c = ground arith

pub to_lower_idem : (s : Bytes) → to_lower (to_lower s) ≡ to_lower s
unfolding to_lower
to_lower_idem [] = refl
to_lower_idem (c ∷ s) = cc (lower_idem c, to_lower_idem s)

pub to_lower-append : (s t : Bytes) → to_lower (s ++ t) ≡ to_lower s ++ to_lower t
unfolding to_lower
to_lower-append [] t = refl
to_lower-append (c ∷ s) t = ap (◌∷◌ (lower c)) (to_lower-append s t)

trim_left-eq_self : (s : Bytes) → All IsQuiet s → trim_left s ≡ s
unfolding trim_left
trim_left-eq_self [] h = refl
trim_left-eq_self (c ∷ s) (q, h) = ground arith

push_kept-eq-cons : (c : ℕ) (s : Bytes) → is_space c ≡ false → push_kept c s ≡ c ∷ s
unfolding push_kept
push_kept-eq-cons c [] h = ground arith
push_kept-eq-cons c (d ∷ s) h = refl

trim_right-eq_self : (s : Bytes) → All IsQuiet s → trim_right s ≡ s
unfolding trim_right
trim_right-eq_self [] h = refl
trim_right-eq_self (c ∷ s) (q, h) = rw (trim_right-eq_self s h) (push_kept-eq-cons c s q.1)

pub trim_space-eq_self : (s : Bytes) → All IsQuiet s → trim_space s ≡ s
unfolding trim_space
trim_space-eq_self s h = rw (trim_left-eq_self s h) (trim_right-eq_self s h)

pub contains-eq-false : (b : ℕ) (s : Bytes) → Lacks b s → contains b s ≡ false
unfolding contains
contains-eq-false b [] h = refl
contains-eq-false b (c ∷ s) (n, h) = ground (arith, contains-eq-false b s h)

pub last_cut-eq-none : (b : ℕ) (s : Bytes) → Lacks b s → last_cut b s ≡ none
unfolding last_cut last_head
last_cut-eq-none b [] h = refl
last_cut-eq-none b (c ∷ s) (n, h) = ground (arith, last_cut-eq-none b s h)

pub last_cut-append : (b : ℕ) (s t : Bytes) → Lacks b t → last_cut b (s ++ b ∷ t) ≡ some (s, t)
unfolding last_cut last_head
last_cut-append b [] t h = ground (arith, last_cut-eq-none b t h)
last_cut-append b (c ∷ s) t h = rw (last_cut-append b s t h, last_head)

pub trim_suffix-eq_self : (b : ℕ) (s : Bytes) → ends_with b s ≡ false → trim_suffix b s ≡ s
unfolding trim_suffix ends_with
trim_suffix-eq_self b [] h = refl
trim_suffix-eq_self b (c ∷ []) h = ground arith
trim_suffix-eq_self b (c ∷ d ∷ s) h = ap (◌∷◌ c) (trim_suffix-eq_self b (d ∷ s) h)

pub trim_suffix-append : (b : ℕ) (s : Bytes) → trim_suffix b (s ++ b ∷ []) ≡ s
unfolding trim_suffix
trim_suffix-append b [] = ground arith
trim_suffix-append b (c ∷ []) = ground arith
trim_suffix-append b (c ∷ d ∷ s) = ap (◌∷◌ c) (trim_suffix-append b (d ∷ s))

pub ends_with-append : (b c : ℕ) (s t : Bytes) → ends_with b (s ++ c ∷ t) ≡ ends_with b (c ∷ t)
unfolding ends_with
ends_with-append b c [] t = refl
ends_with-append b c (d ∷ []) t = refl
ends_with-append b c (d ∷ e ∷ s) t = ends_with-append b c (e ∷ s) t

pub split-append : (b : ℕ) (s t : Bytes) → Lacks b s → split b (s ++ b ∷ t) ≡ s ∷ split b t
unfolding split add_to_first
split-append b [] t h = ground arith
split-append b (c ∷ s) t (n, h) = ground (arith, split-append b s t h)

add_to_first-All :
    (c : ℕ) (Q : ℕ → Type 0) (ps : List Bytes)
    → All (All Q) (add_to_first c ps)
    → Q c × All (All Q) ps
unfolding add_to_first
add_to_first-All c Q [] h = (h.0.0, tt)
add_to_first-All c Q (p ∷ ps) h = (h.0.0, (h.0.1, h.1))

-- What holds of the bytes of each part holds of each byte that is no separator.
pub split-All :
    (b : ℕ) (Q : ℕ → Type 0) (s : Bytes) → All (All Q) (split b s) → All (λ c. Q c ⊎ (c ≡ b)) s
unfolding split
split-All b Q [] h = tt
split-All b Q (c ∷ s) h = elim (Bool-cases (c == b)) [
  | inl e ↦ (inr ((==_iff c b).0 e), split-All b Q s ((rw e at h).1))
  | inr e ↦
      let parts = add_to_first-All c Q (split b s) (rw e at h) in
      (inl parts.0, split-All b Q s parts.1)
]

abbrev pub TailNonempty : List Bytes → Type 0
TailNonempty [] = Unit
TailNonempty (p ∷ ps) = All (λ q. q ≢ []) ps

tail-add_to_first : (c : ℕ) (ps : List Bytes) → TailNonempty (add_to_first c ps) → TailNonempty ps
unfolding add_to_first
tail-add_to_first c [] h = tt
tail-add_to_first c (p ∷ ps) h = h

pub All-TailNonempty : (ps : List Bytes) → All (λ q. q ≢ []) ps → TailNonempty ps
All-TailNonempty [] h = tt
All-TailNonempty (p ∷ ps) h = h.1

-- A text ends with the separator only if a part behind the first is empty.
pub split-ends_with : (b : ℕ) (s : Bytes) → TailNonempty (split b s) → ends_with b s ≡ false
unfolding split ends_with
split-ends_with b [] h = refl
split-ends_with b (c ∷ []) h = elim (Bool-cases (c == b)) [
  | inl e ↦ absurd ((rw e at h).0 refl)
  | inr e ↦ e
]
split-ends_with b (c ∷ d ∷ s) h = elim (Bool-cases (c == b)) [
  | inl e ↦ split-ends_with b (d ∷ s) (All-TailNonempty (split b (d ∷ s)) (rw e at h))
  | inr e ↦ split-ends_with b (d ∷ s) (tail-add_to_first c (split b (d ∷ s)) (rw e at h))
]
