-- ===== src/Base/Dict.antt =====
-- Go maps as association lists with an explicit equality of keys.
use mathlib.Core.Path.{◌≡◌, refl}
use mathlib.Core.Bool.{Bool, false}
use mathlib.Core.List.{List, [], ◌∷◌, ◌++◌}
use mathlib.Core.Option.{Option, none, some}
use native.Mathlib.Omega.{arith}
use muxbridge.Base.Tests.{if◌then◌else◌}
use muxbridge.Base.Lists.{All}
use muxbridge.Base.Keys.{Eq}

module _ {ℓ κ} {K : Type ℓ} {V : Type κ} ⦃e : Eq K⦄ where
  unfoldable pub lookup : K → List (K × V) → Option V
  lookup k [] = none
  lookup k ((j, v) ∷ m) = if e.beq j k then some v else lookup k m

  -- `m[k] = v`
  unfoldable pub insert : K → V → List (K × V) → List (K × V)
  insert k v [] = (k, v) ∷ []
  insert k v ((j, w) ∷ m) = if e.beq j k then (k, v) ∷ m else (j, w) ∷ insert k v m

  -- `delete(m, k)`
  unfoldable pub delete : K → List (K × V) → List (K × V)
  delete k [] = []
  delete k ((j, w) ∷ m) = if e.beq j k then delete k m else (j, w) ∷ delete k m

  pub lookup-insert :
      (k j : K) (v : V) (m : List (K × V))
      → lookup j (insert k v m) ≡ (if e.beq k j then some v else lookup j m)
  unfolding lookup insert
  lookup-insert k j v [] = refl
  lookup-insert k j v ((i, w) ∷ m) =
      ground (arith, e.beq_iff k j, e.beq_iff i k, e.beq_iff i j, lookup-insert k j v m)

  pub lookup-delete :
      (k j : K) (m : List (K × V))
      → lookup j (delete k m) ≡ (if e.beq k j then none else lookup j m)
  unfolding lookup delete
  lookup-delete k j [] = ground arith
  lookup-delete k j ((i, w) ∷ m) =
      ground (arith, e.beq_iff k j, e.beq_iff i k, e.beq_iff i j, lookup-delete k j m)

  -- The entries whose keys fail the test: `delete` of the others, one by one.
  unfoldable pub delete_if : (K → Bool) → List (K × V) → List (K × V)
  delete_if p [] = []
  delete_if p ((j, w) ∷ m) = if p j then delete_if p m else (j, w) ∷ delete_if p m

  pub lookup-delete_if :
      (p : K → Bool) (k : K) (m : List (K × V))
      → lookup k (delete_if p m) ≡ (if p k then none else lookup k m)
  unfolding lookup delete_if
  lookup-delete_if p k [] = ground arith
  lookup-delete_if p k ((j, w) ∷ m) = ground (arith, e.beq_iff j k, lookup-delete_if p k m)

  pub delete_if-delete_if :
      (p q : K → Bool) (m : List (K × V))
      → ((k : K) → p k ≡ false → q k ≡ false)
      → delete_if q (delete_if p m) ≡ delete_if p m
  unfolding delete_if
  delete_if-delete_if p q [] h = refl
  delete_if-delete_if p q ((j, w) ∷ m) h = ground (arith, h j, delete_if-delete_if p q m h)

  pub All-delete_if {μ} :
      (P : K × V → Type μ) (p : K → Bool) (m : List (K × V)) → All P m → All P (delete_if p m)
  unfolding delete_if
  All-delete_if P p [] h = h
  All-delete_if P p ((j, w) ∷ m) h = ground (arith, All-delete_if P p m h.1)

  -- The keys of a Go map are distinct.
  abbrev pub Distinct : List (K × V) → Type ℓ
  Distinct [] = Unit
  Distinct ((j, w) ∷ m) = All (λ kv. e.beq j kv.0 ≡ false) m × Distinct m

  pub Distinct-delete_if : (p : K → Bool) (m : List (K × V)) → Distinct m → Distinct (delete_if p m)
  unfolding delete_if
  Distinct-delete_if p [] d = tt
  Distinct-delete_if p ((j, w) ∷ m) d =
      ground (arith, All-delete_if (λ kv. e.beq j kv.0 ≡ false) p m d.0, Distinct-delete_if p m d.1)

  pub insert_fresh :
      (k : K) (v : V) (m : List (K × V))
      → All (λ kv. e.beq kv.0 k ≡ false) m
      → insert k v m ≡ m ++ (k, v) ∷ []
  unfolding insert
  insert_fresh k v [] h = refl
  insert_fresh k v ((j, w) ∷ m) h = ground (arith, insert_fresh k v m h.1)

  -- What holds of every value of a map.
  abbrev pub AllValues {μ} : (V → Type μ) → List (K × V) → Type μ
  AllValues P = All (λ kv. P kv.1)

  pub insert-AllValues {μ} :
      (P : V → Type μ) (k : K) (v : V) (m : List (K × V))
      → AllValues P m
      → P v
      → AllValues P (insert k v m)
  unfolding insert
  insert-AllValues P k v [] h p = (p, tt)
  insert-AllValues P k v ((j, w) ∷ m) h p = ground (arith, insert-AllValues P k v m h.1 p)

  pub lookup-AllValues {μ} :
      (P : V → Type μ) (k : K) (v : V) (m : List (K × V))
      → AllValues P m
      → lookup k m ≡ some v
      → P v
  unfolding lookup
  lookup-AllValues P k v [] h x = cc
  lookup-AllValues P k v ((j, w) ∷ m) h x = ground (arith, lookup-AllValues P k v m h.1)
