-- ===== src/Server/Admission/Weights.antt =====
-- Sums over the session objects, and what the operations of one session do to them.
use muxbridge.Base.{
  ℕ, suc, ◌+◌, ◌≤◌, ◌≡◌, refl, true, false, Option, some, List, [], ◌∷◌, arith, Bytes, lookup,
  insert, nat_eq, length, ◌==◌, if◌then◌else◌,
}
use muxbridge.Server.Session.{Session, try_start, include, has, remove, del, shutdown, fail_all}
use muxbridge.Server.Admission.{Takes, here, there}

-- What the session objects weigh together.
abbrev pub weigh : (Session → ℕ) → List (ℕ × Session) → ℕ
weigh f [] = 0
weigh f ((sid, s) ∷ objects) = f s + weigh f objects

pub weigh-insert :
    (f : Session → ℕ) (sid : ℕ) (s s' : Session) (objects : List (ℕ × Session))
    → lookup sid objects ≡ some s
    → weigh f (insert sid s' objects) + f s ≡ weigh f objects + f s'
unfolding lookup insert
weigh-insert f sid s s' [] e = cc
weigh-insert f sid s s' ((j, t) ∷ objects) e = ground (arith, weigh-insert f sid s s' objects)

abbrev pub count : ℕ → List ℕ → ℕ
count id [] = 0
count id (j ∷ ids) = if j == id then suc (count id ids) else count id ids

-- The handlers with the request id `id`.
abbrev pub count_handlers : ℕ → List (ℕ × ℕ) → ℕ
count_handlers id [] = 0
count_handlers id ((sid, j) ∷ hs) =
    if j == id then suc (count_handlers id hs) else count_handlers id hs

abbrev pub total : List ℕ → ℕ
total [] = 0
total (n ∷ ns) = n + total ns

pub length-Takes :
    {A : Type 0} {x : A} {xs ys : List A} → Takes x xs ys → length xs ≡ suc (length ys)
length-Takes here = refl
length-Takes (there t) = omega (arith, length-Takes t)

pub total-Takes : {n : ℕ} {xs ys : List ℕ} → Takes n xs ys → total xs ≡ n + total ys
total-Takes here = refl
total-Takes (there t) = omega (arith, total-Takes t)

pub count_handlers-Takes :
    (i sid id : ℕ) {xs ys : List (ℕ × ℕ)}
    → Takes (sid, id) xs ys
    → count_handlers i xs ≡ (if id == i then 1 else 0) + count_handlers i ys
count_handlers-Takes i sid id here = ground arith
count_handlers-Takes i sid id (there t) = ground (arith, count_handlers-Takes i sid id t)

abbrev pub in_session : ℕ → Session → ℕ
in_session id s = count id s.inflight

abbrev pub in_flight : Session → ℕ
in_flight s = length s.inflight

has-count : (id : ℕ) (ids : List ℕ) → count id ids ≡ 0 → has id ids ≡ false
unfolding has
has-count id [] e = refl
has-count id (j ∷ ids) e = ground (arith, has-count id ids)

pub remove-count :
    (i id : ℕ) (ids : List ℕ) → count i (remove id ids) ≡ (if id == i then 0 else count i ids)
unfolding remove
remove-count i id [] = ground arith
remove-count i id (j ∷ ids) = ground (arith, remove-count i id ids)

pub length-remove : (id : ℕ) (ids : List ℕ) → length (remove id ids) + count id ids ≡ length ids
unfolding remove
length-remove id [] = refl
length-remove id (j ∷ ids) = ground (arith, length-remove id ids)

count-has : (id : ℕ) (ids : List ℕ) → has id ids ≡ true → 1 ≤ count id ids
unfolding has
count-has id [] e = cc
count-has id (j ∷ ids) e = ground (arith, count-has id ids)

-- A session weighs no more than all together.
pub weigh-ge :
    (f : Session → ℕ) (sid : ℕ) (s : Session) (objects : List (ℕ × Session))
    → lookup sid objects ≡ some s
    → f s ≤ weigh f objects
unfolding lookup
weigh-ge f sid s [] e = cc
weigh-ge f sid s ((j, t) ∷ objects) e = ground (arith, weigh-ge f sid s objects)

pub try_start-effect :
    (id m : ℕ) (s s' : Session)
    → try_start id m s ≡ some s'
    → count id s.inflight ≡ 0
    → s'.inflight ≡ id ∷ s.inflight
unfolding try_start include
try_start-effect id m s s' e z = ground (arith, has-count id s.inflight z)

pub del-effect :
    (id : ℕ) (s s' : Session)
    → del id s ≡ (s', true)
    → (s'.inflight ≡ remove id s.inflight) × (1 ≤ count id s.inflight)
unfolding del
del-effect id s s' e = ground (arith, count-has id s.inflight)

pub shutdown-effect :
    (e : Option Bytes) (s : Session)
    → (length (shutdown e s).0.inflight + (shutdown e s).1 ≡ length s.inflight)
      × ((i : ℕ) → count i (shutdown e s).0.inflight ≤ count i s.inflight)
unfolding shutdown fail_all
shutdown-effect e s = (ground arith, λ i. ground arith)
