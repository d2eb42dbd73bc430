-- ===== src/Prelude/Int.antt =====
-- Signed integers over the native numbers, under the library's names, with their casts of C.
use Prim.Native.Nat.{ℕ, suc, ◌-◌, ◌%◌, ◌<◌}
use mathlib.Core.Bool.{Bool, true}
use native.Mathlib.Omega.{arith}
use esp_fmb.Prelude.Tests.{leb, if◌then◌else◌}

-- `negsuc n` is -(n + 1).
pub data ℤ : Type 0 where
  pos : ℕ → ℤ
  negsuc : ℕ → ℤ

-- The absolute value.
abbrev pub abs : ℤ → ℕ
abs (pos n) = n
abs (negsuc n) = suc n

-- The conversion to an unsigned type with `m` values.
abbrev pub wrap : ℕ → ℤ → ℕ
wrap m (pos n) = n % m
wrap m (negsuc n) = m - 1 - n % m

-- `z <= n` for a signed `z`.
abbrev pub le_pos : ℤ → ℕ → Bool
le_pos (pos k) n = leb k n
le_pos (negsuc k) n = true

-- a - b, as an integer.
abbrev pub sub_ℕ : ℕ → ℕ → ℤ
sub_ℕ a b = if leb b a then pos (a - b) else negsuc (b - a - 1)

pub wrap-lt : (m : ℕ) (z : ℤ) → 0 < m → wrap m z < m
wrap-lt m (pos n) h = omega arith
wrap-lt m (negsuc n) h = omega arith
