-- ===== src/Control/Answer/Hash.antt =====
-- The hash as text.
use esp_fmb.Prelude.{
  ℕ, ◌+◌, ◌-◌, ◌*◌, ◌/◌, ◌%◌, ◌<◌, ◌≡◌, refl, ap₂, true, List, [], ◌∷◌, leb, length, arith,
  if◌then◌else◌,
}
use esp_fmb.Prelude.Text.{hex_digit, print_02x}
use esp_fmb.Control.Answer.{hex, hash_input, mk_hash}

abbrev pub AreBytes : List ℕ → Type 0
AreBytes [] = Unit
AreBytes (c ∷ s) = (c < 256) × AreBytes s

abbrev pub digit_value : ℕ → ℕ
digit_value c = if leb c b'9' then c - b'0' else c + 10 - b'A'

-- The bytes that two digits each show.
abbrev pub unhex : List ℕ → List ℕ
unhex [] = []
unhex (c ∷ []) = []
unhex (c ∷ d ∷ s) = (digit_value c * 16 + digit_value d) ∷ unhex s

digit_value-hex_digit : (d : ℕ) → d < 16 → digit_value (hex_digit d) ≡ d
unfolding hex_digit
digit_value-hex_digit d h = ground arith

unhex-hex : (s : List ℕ) → AreBytes s → unhex (hex s) ≡ s
unfolding hex print_02x
unhex-hex [] h = refl
unhex-hex (c ∷ s) h =
    ap₂ (λ x l. x ∷ l)
      (omega (arith, digit_value-hex_digit (c / 16 % 16), digit_value-hex_digit (c % 16), h.0))
      (unhex-hex s h.1)

pub length-hex : (s : List ℕ) → length (hex s) ≡ 2 * length s
unfolding hex print_02x
length-hex [] = refl
length-hex (c ∷ s) = omega (arith, length-hex s)

-- For the digest MD5, of which all that is used is that it gives sixteen bytes, and with memory: the
-- text that a client has to send has thirty-two characters, which fit `hash_str`, and shows just the digest of the secret word and the
-- time that the client was told.
pub mk_hash-unhex :
    (md5 : List ℕ → List ℕ) (time : ℕ) (word : List ℕ)
    → AreBytes (md5 (hash_input word time))
    → length (md5 (hash_input word time)) ≡ 16
    → (length (mk_hash md5 true time word).0 ≡ 32)
      × (unhex (mk_hash md5 true time word).0
          ≡ md5 (hash_input word (mk_hash md5 true time word).1))
unfolding mk_hash
mk_hash-unhex md5 time word b l =
    let digest = md5 (hash_input word time) in
    (omega (arith, length-hex digest, l), unhex-hex digest b)
