-- ===== src/Prelude/Xor.antt =====
-- The laws of the exclusive or, `^` of C, on numbers of any size, from its binary digits.
use Prim.Native.Nat.{
  ℕ, zero, suc, ◌+◌, ◌*◌, ◌/◌, ◌%◌, ◌≤◌, ◌<◌, bit_xor, differ, digits, bit_xor-bitwise,
}
use mathlib.Core.Path.{◌≡◌, refl, sym, ◌∙◌, ap, ap₂}
use native.Mathlib.Omega.{arith}

abbrev xor_digits : ℕ → ℕ → ℕ → ℕ
xor_digits n a b = digits (λ y. y) differ n a b

digits_of_zero : (n b : ℕ) → xor_digits n 0 b ≡ b
digits_of_zero zero b = refl
digits_of_zero (suc n) b = refl

-- As many steps as the number has units are enough, and more change nothing.
enough : (n m b a : ℕ) → a ≤ n → a ≤ m → xor_digits n a b ≡ xor_digits m a b
enough (suc n) (suc m) b (suc a) p q =
    ap (λ (rest : ℕ). rest * 2 + differ (suc a % 2) (b % 2))
      (enough n m (b / 2) (suc a / 2) (omega arith) (omega arith))
enough n m b zero p q = digits_of_zero n b ∙ sym (digits_of_zero m b)
enough zero m b (suc a) p q = absurd (omega arith)
enough n zero b (suc a) p q = absurd (omega arith)

pub zero-xor : (b : ℕ) → bit_xor 0 b ≡ b
zero-xor b = bit_xor-bitwise 0 b

differ_bits : (x y : ℕ) → x < 2 → y < 2 → differ x y ≡ (x + y) % 2
differ_bits zero zero p q = refl
differ_bits zero (suc zero) p q = refl
differ_bits (suc zero) zero p q = refl
differ_bits (suc zero) (suc zero) p q = refl
differ_bits (suc (suc x)) y p q = absurd (omega arith)
differ_bits x (suc (suc y)) p q = absurd (omega arith)

bit_of : (x y : ℕ) → differ (x % 2) (y % 2) ≡ (x + y) % 2
bit_of x y = differ_bits (x % 2) (y % 2) (omega arith) (omega arith) ∙ omega arith

xor_step : (a b : ℕ) → bit_xor a b ≡ bit_xor (a / 2) (b / 2) * 2 + (a + b) % 2
xor_step zero b = omega (arith, zero-xor b, zero-xor (b / 2))
xor_step (suc a) b =
    bit_xor-bitwise (suc a) b
    ∙ ap₂ (λ (above lowest : ℕ). above * 2 + lowest)
        (enough a (suc a / 2) (b / 2) (suc a / 2) (omega arith) (omega arith)
          ∙ sym (bit_xor-bitwise (suc a / 2) (b / 2)))
        (bit_of (suc a) b)

-- The lowest digit, and the digits above it.
pub xor_low : (a b : ℕ) → bit_xor a b % 2 ≡ (a + b) % 2
xor_low a b = omega (arith, xor_step a b)

pub xor_half : (a b : ℕ) → bit_xor a b / 2 ≡ bit_xor (a / 2) (b / 2)
xor_half a b = omega (arith, xor_step a b)

comm_fuel : (n a b : ℕ) → a ≤ n → b ≤ n → bit_xor a b ≡ bit_xor b a
comm_fuel zero zero zero p q = refl
comm_fuel zero zero (suc b) p q = absurd (omega arith)
comm_fuel zero (suc a) b p q = absurd (omega arith)
comm_fuel (suc n) a b p q =
    omega
      (arith, xor_step a b, xor_step b a, comm_fuel n (a / 2) (b / 2) (omega arith) (omega arith))

pub xor_comm : (a b : ℕ) → bit_xor a b ≡ bit_xor b a
xor_comm a b = comm_fuel (a + b) a b (omega arith) (omega arith)

assoc_fuel :
    (n a b c : ℕ) → a ≤ n → b ≤ n → c ≤ n → bit_xor (bit_xor a b) c ≡ bit_xor a (bit_xor b c)
assoc_fuel zero zero zero zero p q r = refl
assoc_fuel zero (suc a) b c p q r = absurd (omega arith)
assoc_fuel zero a (suc b) c p q r = absurd (omega arith)
assoc_fuel zero a b (suc c) p q r = absurd (omega arith)
assoc_fuel (suc n) a b c p q r = omega (
  arith,
  xor_step (bit_xor a b) c,
  xor_step a (bit_xor b c),
  xor_low a b,
  xor_low b c,
  ap (λ (t : ℕ). bit_xor t (c / 2)) (xor_half a b),
  ap (λ (t : ℕ). bit_xor (a / 2) t) (xor_half b c),
  assoc_fuel n (a / 2) (b / 2) (c / 2) (omega arith) (omega arith) (omega arith),
)

pub xor_assoc : (a b c : ℕ) → bit_xor (bit_xor a b) c ≡ bit_xor a (bit_xor b c)
xor_assoc a b c = assoc_fuel (a + b + c) a b c (omega arith) (omega arith) (omega arith)

pub xor-zero : (a : ℕ) → bit_xor a 0 ≡ a
xor-zero a = xor_comm a 0 ∙ zero-xor a

self_fuel : (n a : ℕ) → a ≤ n → bit_xor a a ≡ 0
self_fuel zero zero p = refl
self_fuel zero (suc a) p = absurd (omega arith)
self_fuel (suc n) a p = omega (arith, xor_step a a, self_fuel n (a / 2) (omega arith))

pub xor_self : (a : ℕ) → bit_xor a a ≡ 0
xor_self a = self_fuel a a (omega arith)

-- The number that the `k` low digits make, and the digits above them.
abbrev pub low : ℕ → ℕ → ℕ
low zero a = 0
low (suc k) a = low k (a / 2) * 2 + a % 2

abbrev pub high : ℕ → ℕ → ℕ
high zero a = a
high (suc k) a = high k (a / 2)

halve : (q a : ℕ) → (q * 2 + a % 2) / 2 ≡ q
halve q a = omega arith

low_byte : (a : ℕ) → low 8 a ≡ a % 256
low_byte a = omega arith

high_byte : (a : ℕ) → high 8 a ≡ a / 256
high_byte a = omega arith

-- The exclusive or acts on the two apart.
pub low-xor : (k a b : ℕ) → low k (bit_xor a b) ≡ bit_xor (low k a) (low k b)
low-xor zero a b = refl
low-xor (suc k) a b = omega (
  arith,
  xor_low a b,
  ap (low k) (xor_half a b),
  low-xor k (a / 2) (b / 2),
  xor_step (low k (a / 2) * 2 + a % 2) (low k (b / 2) * 2 + b % 2),
  ap₂ bit_xor (halve (low k (a / 2)) a) (halve (low k (b / 2)) b),
)

pub high-xor : (k a b : ℕ) → high k (bit_xor a b) ≡ bit_xor (high k a) (high k b)
high-xor zero a b = refl
high-xor (suc k) a b = ap (high k) (xor_half a b) ∙ high-xor k (a / 2) (b / 2)

-- For the widths of the program.
pub xor_mod_256 : (a b : ℕ) → bit_xor a b % 256 ≡ bit_xor (a % 256) (b % 256)
xor_mod_256 a b = omega (arith, low-xor 8 a b, ap₂ bit_xor (low_byte a) (low_byte b))

pub xor_div_256 : (a b : ℕ) → bit_xor a b / 256 ≡ bit_xor (a / 256) (b / 256)
xor_div_256 a b = omega (arith, high-xor 8 a b, ap₂ bit_xor (high_byte a) (high_byte b))

pub xor-lt_256 : (a b : ℕ) → a < 256 → b < 256 → bit_xor a b < 256
xor-lt_256 a b p q =
    let e : bit_xor (a % 256) (b % 256) ≡ bit_xor a b = ap₂ bit_xor (omega arith) (omega arith) in
    omega (arith, xor_mod_256 a b)

pub xor-lt_65536 : (a b : ℕ) → a < 65536 → b < 65536 → bit_xor a b < 65536
xor-lt_65536 a b p q = omega (
  arith,
  xor_mod_256 a b,
  xor_div_256 a b,
  xor-lt_256 (a / 256) (b / 256) (omega arith) (omega arith),
)
