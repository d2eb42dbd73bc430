-- ===== src/Crc/Reference.antt =====
-- The table-driven sum is the bitwise CRC-16 with the reflected polynomial 0xA001.
use esp_fmb.Prelude.{
  ℕ, zero, suc, ◌*◌, ◌/◌, ◌%◌, ◌≤◌, ◌<◌, ◌≡◌, refl, sym, ap, ap₂, ◌∙◌, Bool, true, ◌&&◌, List, [],
  ◌∷◌, bit_xor, get_or, take, length, arith, ◌==◌, ltb, if◌then◌else◌,
}
use esp_fmb.Prelude.Words.{u16}
use esp_fmb.Prelude.Xor.{
  xor_low, xor_half, xor_assoc, xor_comm, xor-zero, zero-xor, xor_self, xor_mod_256, xor_div_256,
  xor-lt_256, xor-lt_65536,
}
use esp_fmb.Crc.{itcrc, bit16, word_at, ksum_loop, ksum}

-- One bit: shift it out, and mix the polynomial in if it was set.
unfoldable pub crc_bit : ℕ → ℕ
crc_bit c = if c % 2 == 1 then bit_xor (c / 2) 0xa001 else c / 2

unfoldable pub crc_bits : ℕ → ℕ → ℕ
crc_bits zero c = c
crc_bits (suc k) c = crc_bits k (crc_bit c)

unfoldable pub crc_byte : ℕ → ℕ → ℕ
crc_byte c b = crc_bits 8 (bit_xor c b)

-- The checksum of a message, from the register `c` on.
unfoldable pub crc16 : ℕ → List ℕ → ℕ
unfolding crc_byte crc_bits crc_bit
crc16 c [] = c
crc16 c (b ∷ bs) = crc16 (crc_byte c b) bs

-- The bytes of a list.
abbrev pub AllBytes : List ℕ → Type 0
AllBytes [] = Unit {0}
AllBytes (b ∷ bs) = (b < 256) × AllBytes bs

xor_swap : (u v p : ℕ) → bit_xor (bit_xor u v) p ≡ bit_xor (bit_xor u p) v
xor_swap u v p =
    xor_assoc u v p ∙ ap (λ (t : ℕ). bit_xor u t) (xor_comm v p) ∙ sym (xor_assoc u p v)

xor_cancel : (u v p : ℕ) → bit_xor (bit_xor u p) (bit_xor v p) ≡ bit_xor u v
xor_cancel u v p =
    sym (xor_assoc (bit_xor u p) v p)
    ∙ xor_swap (bit_xor u p) v p
    ∙ ap (λ (t : ℕ). bit_xor t v)
        (xor_assoc u p p ∙ ap (λ (t : ℕ). bit_xor u t) (xor_self p) ∙ xor-zero u)

-- A shift register without its feedback is linear.
crc_bit-xor : (a b : ℕ) → crc_bit (bit_xor a b) ≡ bit_xor (crc_bit a) (crc_bit b)
unfolding crc_bit
crc_bit-xor a b = ground (
  arith,
  xor_low a b,
  xor_half a b,
  xor_swap (a / 2) (b / 2) 0xa001,
  xor_assoc (a / 2) (b / 2) 0xa001,
  xor_cancel (a / 2) (b / 2) 0xa001,
)

crc_bits-xor : (k a b : ℕ) → crc_bits k (bit_xor a b) ≡ bit_xor (crc_bits k a) (crc_bits k b)
unfolding crc_bits
crc_bits-xor zero a b = refl
crc_bits-xor (suc k) a b = rw (crc_bit-xor a b) (crc_bits-xor k (crc_bit a) (crc_bit b))

crc_bit_even : (h : ℕ) → crc_bit (h * 2) ≡ h
unfolding crc_bit
crc_bit_even h = ground arith

crc_bits_doubled : (k h : ℕ) → crc_bits (suc k) (h * 2) ≡ crc_bits k h
unfolding crc_bits
crc_bits_doubled k h = ap (crc_bits k) (crc_bit_even h)

crc_bits_high : (h : ℕ) → crc_bits 8 (h * 256) ≡ h
crc_bits_high h =
    ap (crc_bits 8) (regroup h)
    ∙ crc_bits_doubled 7 _
    ∙ crc_bits_doubled 6 _
    ∙ crc_bits_doubled 5 _
    ∙ crc_bits_doubled 4 _
    ∙ crc_bits_doubled 3 _
    ∙ crc_bits_doubled 2 _
    ∙ crc_bits_doubled 1 _
    ∙ crc_bits_doubled 0 h
    ∙ unfold crc_bits in refl
  where
    regroup : (h : ℕ) → h * 256 ≡ h * 2 * 2 * 2 * 2 * 2 * 2 * 2 * 2
    regroup h = omega arith

-- A number is its low byte and the rest.
xor_parts : (x : ℕ) → bit_xor (x % 256) (x / 256 * 256) ≡ x
xor_parts x = omega (
  arith,
  xor_mod_256 (x % 256) (x / 256 * 256),
  xor_div_256 (x % 256) (x / 256 * 256),
  ap₂ bit_xor (low_low x) (low_high x) ∙ xor-zero (x % 256),
  ap₂ bit_xor (high_low x) (high_high x) ∙ zero-xor (x / 256),
)
  where
    low_low : (x : ℕ) → x % 256 % 256 ≡ x % 256
    low_low x = omega arith

    low_high : (x : ℕ) → x / 256 * 256 % 256 ≡ 0
    low_high x = omega arith

    high_low : (x : ℕ) → x % 256 / 256 ≡ 0
    high_low x = omega arith

    high_high : (x : ℕ) → x / 256 * 256 / 256 ≡ x / 256
    high_high x = omega arith

crc_bits_parts : (x : ℕ) → crc_bits 8 x ≡ bit_xor (crc_bits 8 (x % 256)) (x / 256)
crc_bits_parts x =
    ap (crc_bits 8) (sym (xor_parts x))
    ∙ crc_bits-xor 8 (x % 256) (x / 256 * 256)
    ∙ ap (λ (t : ℕ). bit_xor (crc_bits 8 (x % 256)) t) (crc_bits_high (x / 256))

-- A test at all numbers under a bound, as an evaluation.
holds_under : (ℕ → Bool) → ℕ → Bool
holds_under test zero = true
holds_under test (suc bound) = holds_under test bound && test bound

test_at :
    (test : ℕ → Bool) (bound x : ℕ) → x < bound → holds_under test bound ≡ true → test x ≡ true
unfolding holds_under
test_at test zero x below all = absurd (omega arith)
test_at test (suc bound) x below all = ground (arith, test_at test bound x)

-- The 256 entries of the table.
table_checked :
    holds_under (λ x. (get_or itcrc x 0 == crc_bits 8 x) && ltb (get_or itcrc x 0) 65536) 256 ≡ true
unfolding holds_under itcrc crc_bits crc_bit
table_checked = refl

table_entry : (x : ℕ) → x < 256 → (get_or itcrc x 0 ≡ crc_bits 8 x) × (get_or itcrc x 0 < 65536)
table_entry x h = ground (arith, test_at _ 256 x h table_checked)

-- Mixing a byte in changes the low byte of the register only.
xor_byte :
    (c b : ℕ) → b < 256 → (bit_xor c b % 256 ≡ bit_xor (c % 256) b) × (bit_xor c b / 256 ≡ c / 256)
xor_byte c b h = (
  xor_mod_256 c b ∙ ap (λ (t : ℕ). bit_xor (c % 256) t) (omega arith),
  xor_div_256 c b ∙ ap (λ (t : ℕ). bit_xor (c / 256) t) (omega arith) ∙ xor-zero (c / 256),
)

crc_byte_parts :
    (c b : ℕ) → b < 256 → crc_byte c b ≡ bit_xor (get_or itcrc (bit_xor (c % 256) b) 0) (c / 256)
unfolding crc_byte
crc_byte_parts c b h =
    crc_bits_parts (bit_xor c b)
    ∙ ap₂ bit_xor
        (ap (crc_bits 8) low_part ∙ sym (table_entry _ (xor-lt_256 (c % 256) b (omega arith) h)).0)
        high_part
  where
    low_part : bit_xor c b % 256 ≡ bit_xor (c % 256) b
    low_part = (xor_byte c b h).0

    high_part : bit_xor c b / 256 ≡ c / 256
    high_part = (xor_byte c b h).1

pub crc_byte-lt : (c b : ℕ) → c < 65536 → b < 256 → crc_byte c b < 65536
crc_byte-lt c b hc hb =
    rw (crc_byte_parts c b hb)
      (xor-lt_65536 _ _ (table_entry _ (xor-lt_256 (c % 256) b (omega arith) hb)).1 (omega arith))

-- The table, the shift and the mask of `Bit16` feed one byte into the register.
bit16-eq-crc_byte : (w c : ℕ) → c < 65536 → bit16 w c ≡ crc_byte c (w % 256)
unfolding bit16
bit16-eq-crc_byte w c h =
    ap (λ (t : ℕ). bit_xor (get_or itcrc t 0) (c / 256) % 65536) (xor_mod_256 c w)
    ∙ ap u16 (sym (crc_byte_parts c (w % 256) (omega arith)))
    ∙ omega (arith, crc_byte-lt c (w % 256) h (omega arith))

ksum_loop-eq-crc16 :
    (bs : List ℕ) (n c : ℕ)
    → AllBytes bs
    → n ≤ length bs
    → c < 65536
    → ksum_loop n bs c ≡ crc16 c (take n bs)
unfolding ksum_loop crc16
ksum_loop-eq-crc16 bs zero c h fits hc = refl
ksum_loop-eq-crc16 [] (suc n) c h fits hc = absurd (omega arith)
ksum_loop-eq-crc16 (b ∷ bs) (suc n) c h fits hc =
    ap (ksum_loop n bs) (bit16-eq-crc_byte (word_at (b ∷ bs)) c hc ∙ ap (crc_byte c) byte)
    ∙ ksum_loop-eq-crc16 bs n (crc_byte c b) h.1 (omega arith) (crc_byte-lt c b hc h.0)
  where
    byte : word_at (b ∷ bs) % 256 ≡ b
    byte = omega arith

-- `ksum` over the first `n` of some bytes, if there are as many, is the bitwise checksum of these
-- `n` alone, though it reads the byte behind them.
pub ksum-eq-crc16 :
    (bs : List ℕ) (n : ℕ) → AllBytes bs → n ≤ length bs → ksum bs n ≡ crc16 0 (take n bs)
unfolding ksum
ksum-eq-crc16 bs n h fits = ksum_loop-eq-crc16 bs n 0 h fits (omega arith)

-- The checksum fits 16 bits.
pub crc16-lt : (bs : List ℕ) (c : ℕ) → AllBytes bs → c < 65536 → crc16 c bs < 65536
unfolding crc16
crc16-lt [] c h hc = hc
crc16-lt (b ∷ bs) c h hc = crc16-lt bs (crc_byte c b) h.1 (crc_byte-lt c b hc h.0)
