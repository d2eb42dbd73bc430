-- ===== src/Crc/Detect.antt =====
-- What the checksum tells apart.
use esp_fmb.Prelude.{
  ℕ, zero, suc, ◌/◌, ◌≤◌, ◌<◌, ◌≡◌, sym, ap, ◌∙◌, ◌≢◌, List, [], ◌∷◌, ◌++◌, bit_xor, arith, length,
  take-all,
}
use esp_fmb.Prelude.Xor.{
  xor_assoc, xor_comm, xor-zero, zero-xor, xor_self, high-xor, high, xor-lt_65536,
}
use esp_fmb.Crc.Reference.{crc_bit, crc_bits, crc_byte, crc16, AllBytes, crc_byte-lt, ksum-eq-crc16}
use esp_fmb.Crc.{ksum}

xor_undo : (a p : ℕ) → bit_xor (bit_xor a p) p ≡ a
xor_undo a p = xor_assoc a p p ∙ ap (λ (t : ℕ). bit_xor a t) (xor_self p) ∙ xor-zero a

xor_injective : (a b p : ℕ) → bit_xor a p ≡ bit_xor b p → a ≡ b
xor_injective a b p e = sym (xor_undo a p) ∙ ap (λ (t : ℕ). bit_xor t p) e ∙ xor_undo b p

-- A register with the polynomial mixed in has its top bit set.
top_bit : (a : ℕ) → high 15 (bit_xor a 0xa001) ≡ bit_xor (high 15 a) 1
top_bit a = high-xor 15 a 0xa001

high_top : (a : ℕ) → high 15 a ≡ a / 32768
high_top a = omega arith

mixed-le : (a : ℕ) → a < 32768 → 32768 ≤ bit_xor a 0xa001
mixed-le a h = omega (
  arith,
  top_bit a,
  high_top (bit_xor a 0xa001),
  ap (λ (t : ℕ). bit_xor t 1) (high_top a ∙ small),
  zero-xor 1,
)
  where
    small : a / 32768 ≡ 0
    small = omega arith

-- No two registers go to the same one.
crc_bit_injective : (a b : ℕ) → a < 65536 → b < 65536 → crc_bit a ≡ crc_bit b → a ≡ b
unfolding crc_bit
crc_bit_injective a b ha hb e =
    ground (arith, mixed-le (a / 2), mixed-le (b / 2), xor_injective (a / 2) (b / 2) 0xa001)

crc_bit-lt : (a : ℕ) → a < 65536 → crc_bit a < 65536
unfolding crc_bit
crc_bit-lt a h = ground (arith, xor-lt_65536 (a / 2) 0xa001)

crc_bits_injective : (k a b : ℕ) → a < 65536 → b < 65536 → crc_bits k a ≡ crc_bits k b → a ≡ b
unfolding crc_bits
crc_bits_injective zero a b ha hb e = e
crc_bits_injective (suc k) a b ha hb e =
    crc_bit_injective a b ha hb
      (crc_bits_injective k (crc_bit a) (crc_bit b) (crc_bit-lt a ha) (crc_bit-lt b hb) e)

-- Nor do two bytes into one register, nor one byte into two.
crc_byte_register :
    (c d b : ℕ) → c < 65536 → d < 65536 → b < 256 → crc_byte c b ≡ crc_byte d b → c ≡ d
unfolding crc_byte
crc_byte_register c d b hc hd hb e = xor_injective c d b (
    crc_bits_injective 8 _ _ (xor-lt_65536 c b hc (omega arith)) (xor-lt_65536 d b hd (omega arith))
      e)

crc_byte_byte : (c a b : ℕ) → c < 65536 → a < 256 → b < 256 → crc_byte c a ≡ crc_byte c b → a ≡ b
unfolding crc_byte
crc_byte_byte c a b hc ha hb e = xor_injective a b c (
    xor_comm a c
    ∙ crc_bits_injective 8 _ _ (xor-lt_65536 c a hc (omega arith))
        (xor-lt_65536 c b hc (omega arith)) e
    ∙ xor_comm c b)

crc16_register :
    (bs : List ℕ) (c d : ℕ) → AllBytes bs → c < 65536 → d < 65536 → crc16 c bs ≡ crc16 d bs → c ≡ d
unfolding crc16
crc16_register [] c d h hc hd e = e
crc16_register (b ∷ bs) c d h hc hd e = crc_byte_register c d b hc hd h.0 (
    crc16_register bs (crc_byte c b) (crc_byte d b) h.1 (crc_byte-lt c b hc h.0)
      (crc_byte-lt d b hd h.0) e)

-- A message in which one byte was changed has another checksum.
pub crc16_one_byte :
    (pre post : List ℕ) (c a b : ℕ)
    → AllBytes pre
    → AllBytes post
    → c < 65536
    → a < 256
    → b < 256
    → a ≢ b
    → crc16 c (pre ++ a ∷ post) ≢ crc16 c (pre ++ b ∷ post)
unfolding crc16
crc16_one_byte [] post c a b hp hq hc ha hb ne e = ne (
    crc_byte_byte c a b hc ha hb (
      crc16_register post (crc_byte c a) (crc_byte c b) hq (crc_byte-lt c a hc ha)
        (crc_byte-lt c b hc hb) e))
crc16_one_byte (x ∷ pre) post c a b hp hq hc ha hb ne e =
    crc16_one_byte pre post (crc_byte c x) a b hp.1 hq (crc_byte-lt c x hc hp.0) ha hb ne e

ksum-whole : (bs : List ℕ) → AllBytes bs → ksum bs (length bs) ≡ crc16 0 bs
ksum-whole bs h = ksum-eq-crc16 bs (length bs) h (omega arith) ∙ ap (crc16 0) (take-all bs)

AllBytes-insert :
    (pre post : List ℕ) (a : ℕ)
    → AllBytes pre
    → AllBytes post
    → a < 256
    → AllBytes (pre ++ a ∷ post)
AllBytes-insert [] post a hp hq ha = (ha, hq)
AllBytes-insert (x ∷ pre) post a hp hq ha = (hp.0, AllBytes-insert pre post a hp.1 hq ha)

-- Two messages of bytes that differ in one place have different checksums.
pub ksum_one_byte :
    (pre post : List ℕ) (a b : ℕ)
    → AllBytes pre
    → AllBytes post
    → a < 256
    → b < 256
    → a ≢ b
    → ksum (pre ++ a ∷ post) (length (pre ++ a ∷ post))
      ≢ ksum (pre ++ b ∷ post) (length (pre ++ b ∷ post))
ksum_one_byte pre post a b hp hq ha hb ne e =
    crc16_one_byte pre post 0 a b hp hq (omega arith) ha hb ne (
      sym (ksum-whole (pre ++ a ∷ post) (AllBytes-insert pre post a hp hq ha))
      ∙ e
      ∙ ksum-whole (pre ++ b ∷ post) (AllBytes-insert pre post b hp hq hb))
