-- ===== src/Prelude/Float.antt =====
-- The conversion of a `uint32_t` to `float` and back: the nearest number of 24 significant bits,
-- the even one of two.
use Prim.Native.Nat.{ℕ, zero, suc, ◌+◌, ◌*◌, ◌/◌, ◌%◌, ◌<◌}
use mathlib.Core.Path.{◌≡◌, refl}
use native.Mathlib.Omega.{arith}
use esp_fmb.Prelude.Tests.{ltb, ◌==◌, if◌then◌else◌}

-- To a multiple of `unit`.
abbrev rounded : ℕ → ℕ → ℕ
rounded unit n =
    let q = n / unit in
    let r = n % unit * 2 in
    if ltb r unit then q * unit else (if r == unit then (q + q % 2) * unit else (q + 1) * unit)

-- `fuel` is the number of times that the unit may still double; a `uint32_t` needs 8.
float_from : ℕ → ℕ → ℕ → ℕ
float_from zero unit n = rounded unit n
float_from (suc fuel) unit n =
    let rest = float_from fuel (unit * 2) n in
    if ltb n (16777216 * unit) then rounded unit n else rest

unfoldable pub float_of : ℕ → ℕ
unfolding float_from
float_of n = float_from 8 1 n

-- Up to 24 bits nothing is lost.
pub float_of_small : (n : ℕ) → n < 16777216 → float_of n ≡ n
unfolding float_of
float_of_small n h = ground arith

float_runs : float_of 0xffffffff ≡ 0x100000000
unfolding float_of
float_runs = refl
