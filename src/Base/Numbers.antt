-- ===== src/Base/Numbers.antt =====
-- Sums that an index moves along.
use Prim.Native.Nat.{ℕ, suc, ◌+◌}
use mathlib.Core.Path.{◌≡◌}
use native.Mathlib.Omega.{arith}

pub zero_right : (i : ℕ) → i + 0 ≡ i
zero_right i = omega arith

pub zero_left : (i : ℕ) → 0 + i ≡ i
zero_left i = omega arith

pub suc_one : (i : ℕ) → suc i ≡ i + 1
suc_one i = omega arith

pub one_moves : (i j : ℕ) → i + 1 + j ≡ i + suc j
one_moves i j = omega arith
