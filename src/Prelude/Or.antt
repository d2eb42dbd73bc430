-- ===== src/Prelude/Or.antt =====
-- The inclusive or, `|` of C, keeps what it is given.
use Prim.Native.Nat.{ℕ, zero, suc, ◌/◌, ◌≤◌, max, bit_or, digits, bit_or-bitwise}
use native.Mathlib.Omega.{arith}

digits-le : (n a b : ℕ) → b ≤ digits (λ y. y) max n a b
digits-le zero a b = omega arith
digits-le (suc n) zero b = omega arith
digits-le (suc n) (suc a) b = omega (arith, digits-le n (suc a / 2) (b / 2))

pub le-bit_or : (a b : ℕ) → b ≤ bit_or a b
le-bit_or a b = omega (arith, bit_or-bitwise a b, digits-le a a b)
