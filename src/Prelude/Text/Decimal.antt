-- ===== src/Prelude/Text/Decimal.antt =====
-- `atoi` reads back what `%u` prints.
use Prim.Native.Nat.{ℕ, zero, suc, ◌+◌, ◌*◌, ◌/◌, ◌%◌, ◌≤◌, ◌<◌}
use mathlib.Core.Path.{◌≡◌, refl, sym, ap, ◌∙◌, subst}
use mathlib.Core.Bool.{true, false}
use mathlib.Core.List.{List, [], ◌∷◌}
use native.Mathlib.Omega.{arith}
use esp_fmb.Prelude.Tests.{◌==◌}
use esp_fmb.Prelude.Lists.{length}
use esp_fmb.Prelude.Int.{pos}
use esp_fmb.Prelude.Text.{
  is_digit, is_space, digits_from, signed, scan_int, clamp_int, atoi, print_digits, print_u,
}
use mathlib.Core.Logic.{inl, inr, ◌⊎◌}

is_digit-digit : (d : ℕ) → d < 10 → is_digit (d + 48) ≡ true
is_digit-digit d h = ground arith

digits_from-digit :
    (acc d : ℕ) (s : List ℕ)
    → d < 10
    → digits_from acc ((d + 48) ∷ s) ≡ digits_from (acc * 10 + d) s
unfolding digits_from
digits_from-digit acc d s h =
    rw (is_digit-digit d h) (ap (λ (k : ℕ). digits_from (acc * 10 + k) s) (omega arith))

print_digits-last :
    (f n : ℕ) (acc : List ℕ) → n < 10 → print_digits (suc f) n acc ≡ (n % 10 + 48) ∷ acc
unfolding print_digits
print_digits-last f n acc h = let e : (n / 10 == 0) ≡ true = ground arith in rw e refl

print_digits-more :
    (f n : ℕ) (acc : List ℕ)
    → 10 ≤ n
    → print_digits (suc f) n acc ≡ print_digits f (n / 10) ((n % 10 + 48) ∷ acc)
unfolding print_digits
print_digits-more f n acc h = let e : (n / 10 == 0) ≡ false = ground arith in rw e refl

small_or_large : (n : ℕ) → (n < 10) ⊎ (10 ≤ n)
small_or_large n = ground arith

digits_from-last :
    (f n : ℕ) (acc : List ℕ)
    → n < 10
    → digits_from 0 (print_digits (suc f) n acc) ≡ digits_from n acc
digits_from-last f n acc small =
    ap (digits_from 0) (print_digits-last f n acc small)
    ∙ digits_from-digit 0 (n % 10) acc (omega arith)
    ∙ ap (λ (k : ℕ). digits_from k acc) (omega arith)

digits_from-print_digits :
    (f n : ℕ) (acc : List ℕ)
    → n ≤ f
    → digits_from 0 (print_digits (suc f) n acc) ≡ digits_from n acc
digits_from-print_digits zero n acc h = digits_from-last zero n acc (omega arith)
digits_from-print_digits (suc g) n acc h = elim (small_or_large n) [
  | inl small ↦ digits_from-last (suc g) n acc small
  | inr large ↦
      ap (digits_from 0) (print_digits-more (suc g) n acc large)
      ∙ digits_from-print_digits g (n / 10) ((n % 10 + 48) ∷ acc) (omega arith)
      ∙ digits_from-digit (n / 10) (n % 10) acc (omega arith)
      ∙ ap (λ (k : ℕ). digits_from k acc) (omega arith)
]

-- A string of digits, with at least one.
abbrev pub Digits : List ℕ → Type 0
Digits [] = Unit
Digits (c ∷ s) = (48 ≤ c) × (c ≤ 57) × Digits s

digit_of : (n : ℕ) (acc : List ℕ) → Digits acc → Digits ((n % 10 + 48) ∷ acc)
digit_of n acc h = (omega arith, omega arith, h)

no_steps : (n : ℕ) (acc : List ℕ) → print_digits zero n acc ≡ acc
unfolding print_digits
no_steps n acc = refl

print_digits-Digits : (f n : ℕ) (acc : List ℕ) → Digits acc → Digits (print_digits f n acc)
print_digits-Digits zero n acc h = subst Digits (sym (no_steps n acc)) h
print_digits-Digits (suc f) n acc h = elim (small_or_large n) [
  | inl small ↦ subst Digits (sym (print_digits-last f n acc small)) (digit_of n acc h)
  | inr large ↦
      subst Digits (sym (print_digits-more f n acc large))
        (print_digits-Digits f (n / 10) _ (digit_of n acc h))
]

pub print_u-Digits : (n : ℕ) → Digits (print_u n)
unfolding print_u
print_u-Digits n = print_digits-Digits (suc n) n [] tt

scan_int-Digits : (s : List ℕ) → Digits s → scan_int s ≡ pos (digits_from 0 s)
unfolding scan_int signed digits_from
scan_int-Digits [] h = refl
scan_int-Digits (c ∷ s) h =
    let space : is_space c ≡ false = ground arith in
    let minus : (c == 45) ≡ false = ground arith in
    let plus : (c == 43) ≡ false = ground arith in rw (space, minus, plus) refl

digits_from-print_u : (n : ℕ) → digits_from 0 (print_u n) ≡ n
unfolding print_u digits_from
digits_from-print_u n = digits_from-print_digits n n [] (omega arith)

clamp_int-pos : (n : ℕ) → n < 2147483648 → clamp_int (pos n) ≡ pos n
clamp_int-pos n h = ground arith

atoi-Digits :
    (s : List ℕ) (n : ℕ) → Digits s → digits_from 0 s ≡ n → n < 2147483648 → atoi s ≡ pos n
unfolding atoi
atoi-Digits s n h e small = ap clamp_int (scan_int-Digits s h ∙ ap pos e) ∙ clamp_int-pos n small

-- `atoi` of a printed `int` that is not negative is the number.
pub atoi-print_u : (n : ℕ) → n < 2147483648 → atoi (print_u n) ≡ pos n
atoi-print_u n h = atoi-Digits (print_u n) n (print_u-Digits n) (digits_from-print_u n) h

pub atoi-digit : (d : ℕ) → d < 10 → atoi ((d + 48) ∷ []) ≡ pos d
unfolding digits_from
atoi-digit d h =
    atoi-Digits ((d + 48) ∷ []) d (omega arith, omega arith, tt)
      (digits_from-digit 0 d [] h ∙ omega arith) (omega arith)

abbrev pub pow10 : ℕ → ℕ
pow10 zero = 1
pow10 (suc k) = 10 * pow10 k

print_digits-length :
    (f n k : ℕ) (acc : List ℕ)
    → n < pow10 (suc k)
    → length (print_digits f n acc) ≤ length acc + suc k
print_digits-length zero n k acc h = rw (no_steps n acc) (omega arith)
print_digits-length (suc f) n zero acc h =
    rw (print_digits-last f n acc (omega arith)) (omega arith)
print_digits-length (suc f) n (suc k) acc h = elim (small_or_large n) [
  | inl l ↦ rw (print_digits-last f n acc l) (omega arith)
  | inr l ↦
      rw (print_digits-more f n acc l)
        (omega (arith, print_digits-length f (n / 10) k ((n % 10 + 48) ∷ acc) (omega arith)))
]

-- A number below 10^(k + 1) has at most k + 1 digits.
pub print_u-length : (n k : ℕ) → n < pow10 (suc k) → length (print_u n) ≤ suc k
unfolding print_u
print_u-length n k h = omega (arith, print_digits-length (suc n) n k [] h)
