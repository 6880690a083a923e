-- ===== src/Edge/Handlers/Protocols.antt =====
-- The protocols that the managed listener offers, and the errors of a shutdown.
use muxbridge.Base.{
  ◌≡◌, inl, inr, refl, ◌∙◌, false, ◌||◌, List, [], ◌∷◌, ◌++◌, Bytes, arith, same_iff, Bool-cases,
}
use muxbridge.Edge.Handlers.{is_among, missing, append_missing}

-- Texts that differ from each other, and from all that are present.
abbrev pub IsNew : List Bytes → List Bytes → Type 0
IsNew present [] = Unit
IsNew present (v ∷ vs) = (is_among v present ≡ false) × IsNew (v ∷ present) vs

is_among-append :
    (v : Bytes) (xs ys : List Bytes) → is_among v (xs ++ ys) ≡ (is_among v xs || is_among v ys)
unfolding is_among
is_among-append v [] ys = refl
is_among-append v (x ∷ xs) ys = ground (arith, is_among-append v xs ys)

missing-IsNew : (present values : List Bytes) → IsNew present (missing present values)
unfolding missing
missing-IsNew present [] = tt
missing-IsNew present (v ∷ vs) = elim (Bool-cases (is_among v present)) [
  | inl old ↦ rw old (missing-IsNew present vs)
  | inr new ↦ rw new (new, missing-IsNew (v ∷ present) vs)
]

missing-is_among :
    (u : Bytes) (present values : List Bytes)
    → (is_among u present || is_among u (missing present values))
      ≡ (is_among u present || is_among u values)
unfolding missing is_among
missing-is_among u present [] = refl
missing-is_among u present (v ∷ vs) = elim (Bool-cases (is_among v present)) [
  | inl old ↦ rw old (ground (arith, same_iff v u, missing-is_among u present vs))
  | inr new ↦ rw new (ground (arith, same_iff v u, missing-is_among u (v ∷ present) vs))
]

-- The protocols of the list come first, in their order; behind them stand only wanted ones that were
-- missing, each once; and every protocol, taken as `u`, is offered exactly where it was listed or
-- wanted.
pub append_missing_lem :
    (existing values : List Bytes) (u : Bytes)
    → (added : List Bytes) × (append_missing existing values ≡ existing ++ added)
      × IsNew existing added
      × (is_among u (append_missing existing values) ≡ (is_among u existing || is_among u values))
unfolding append_missing
append_missing_lem existing values u = (
  missing existing values,
  refl,
  missing-IsNew existing values,
  is_among-append u existing (missing existing values) ∙ missing-is_among u existing values,
)
