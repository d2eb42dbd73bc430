-- ===== src/Prelude/Text.antt =====
-- Strings of C as the lists of their bytes before the terminator, and the functions of
-- <string.h>, <stdlib.h> and <stdio.h> that the program calls on them.
pub mod Decimal
use Prim.Native.Nat.{ℕ, zero, suc, ◌+◌, ◌-◌, ◌*◌, ◌/◌, ◌%◌}
use Prim.Native.Char.{code}
use Prim.Native.String.{String}
use mathlib.Core.Path.{◌≡◌, refl}
use mathlib.Core.Bool.{Bool, true, false, ◌&&◌, ◌||◌}
use mathlib.Core.Option.{Option, none, some}
use mathlib.Core.List.{List, [], ◌∷◌}
use esp_fmb.Prelude.Tests.{ltb, leb, ◌==◌, if◌then◌else◌}
use esp_fmb.Prelude.Int.{ℤ, pos, negsuc}

-- The bytes of an ASCII literal.
abbrev pub codes : String → List ℕ
codes String.[] = []
codes (String.◌∷◌ c s) = code c ∷ codes s

abbrev pub starts_with : List ℕ → List ℕ → Bool
starts_with [] s = true
starts_with (p ∷ ps) [] = false
starts_with (p ∷ ps) (c ∷ s) = (p == c) && starts_with ps s

-- The string from the first place where `p` begins.
unfoldable pub strstr : List ℕ → List ℕ → Option (List ℕ)
strstr [] p = if starts_with p [] then some [] else none
strstr (c ∷ s) p = if starts_with p (c ∷ s) then some (c ∷ s) else strstr s p

-- What stands before and behind the first `c`.
unfoldable pub strchr : List ℕ → ℕ → Option (List ℕ × List ℕ)
strchr [] c = none
strchr (x ∷ s) c =
    if x == c
    then some ([], s)
    else (elim (strchr s c) [ none ↦ none | some (before, behind) ↦ some (x ∷ before, behind) ])

-- The part before the first `c`, or all, and what stands behind that byte or behind the end,
-- where the zeroed buffers of the program hold the empty string.
unfoldable pub cut_at : ℕ → List ℕ → List ℕ × List ℕ
unfolding strchr
cut_at c s = elim (strchr s c) [ none ↦ (s, []) | some p ↦ p ]

abbrev pub is_digit : ℕ → Bool
is_digit c = leb b'0' c && leb c b'9'

abbrev pub is_space : ℕ → Bool
is_space c = (c == 32) || (leb 9 c && leb c 13)

digits_from : ℕ → List ℕ → ℕ
digits_from acc [] = acc
digits_from acc (c ∷ s) =
    let rest = digits_from (acc * 10 + (c - b'0')) s in if is_digit c then rest else acc

-- Behind the blanks: a sign, then digits.
signed : List ℕ → ℤ
unfolding digits_from
signed [] = pos 0
signed (c ∷ s) =
    if c == b'-'
    then (elim (digits_from 0 s) [ zero ↦ pos 0 | suc n ↦ negsuc n ])
    else (if c == b'+' then pos (digits_from 0 s) else pos (digits_from 0 (c ∷ s)))

scan_int : List ℕ → ℤ
unfolding signed
scan_int [] = pos 0
scan_int (c ∷ s) = if is_space c then scan_int s else signed (c ∷ s)

-- The bounds of an `int`, which `strtol` gives for numbers that are out of range.
abbrev pub clamp_int : ℤ → ℤ
clamp_int (pos n) = if ltb n 2147483648 then pos n else pos 2147483647
clamp_int (negsuc n) = if ltb n 2147483648 then negsuc n else negsuc 2147483647

-- `atoi` as the C library of the chip has it, by `strtol`.
unfoldable pub atoi : List ℕ → ℤ
unfolding scan_int
atoi s = clamp_int (scan_int s)

-- `%u`. Every step divides by ten, so as many steps as the number has units are enough.
print_digits : ℕ → ℕ → List ℕ → List ℕ
print_digits zero n acc = acc
print_digits (suc f) n acc =
    let acc' = (n % 10 + b'0') ∷ acc in
    let rest = print_digits f (n / 10) acc' in if n / 10 == 0 then acc' else rest

unfoldable pub print_u : ℕ → List ℕ
unfolding print_digits
print_u n = print_digits (suc n) n []

-- `%d` of a 32-bit pattern.
unfoldable pub print_d : ℕ → List ℕ
unfolding print_u
print_d n = if leb 2147483648 n then b'-' ∷ print_u (4294967296 - n) else print_u n

unfoldable pub hex_digit : ℕ → ℕ
hex_digit d = if leb d 9 then d + b'0' else d - 10 + b'A'

-- `%02X` of a byte.
unfoldable pub print_02x : ℕ → List ℕ
unfolding hex_digit
print_02x n = hex_digit (n / 16 % 16) ∷ hex_digit (n % 16) ∷ []

atoi_runs : atoi (codes " -42x") ≡ negsuc 41
unfolding atoi
atoi_runs = refl

atoi_clamps : atoi (codes "4000000000") ≡ pos 2147483647
unfolding atoi
atoi_clamps = refl

print_runs : print_u 9021 ≡ codes "9021"
unfolding print_u
print_runs = refl

cut_runs : cut_at b',' (codes "10,20") ≡ (codes "10", codes "20")
unfolding cut_at
cut_runs = refl
