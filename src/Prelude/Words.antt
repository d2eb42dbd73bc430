-- ===== src/Prelude/Words.antt =====
-- Machine words of C as native numbers: the casts, the byte orders, and the bytes of a packed
-- struct. The processor is little-endian, so the conversions to network order swap the bytes.
use Prim.Native.Nat.{ℕ, ◌+◌, ◌*◌, ◌/◌, ◌%◌, ◌<◌}
use mathlib.Core.Path.{◌≡◌, refl}
use mathlib.Core.List.{List, [], ◌∷◌, ◌++◌}
use native.Mathlib.Omega.{arith}
use esp_fmb.Prelude.Lists.{get_or}

abbrev pub u8 : ℕ → ℕ
u8 n = n % 256

abbrev pub u16 : ℕ → ℕ
u16 n = n % 65536

abbrev pub u32 : ℕ → ℕ
u32 n = n % 4294967296

-- htons and ntohs, htonl and ntohl, htobe64.
unfoldable pub htons : ℕ → ℕ
htons x = x % 256 * 256 + x / 256 % 256

unfoldable pub htonl : ℕ → ℕ
htonl x = x % 256 * 16777216 + x / 256 % 256 * 65536 + x / 65536 % 256 * 256 + x / 16777216 % 256

unfoldable pub htobe64 : ℕ → ℕ
htobe64 x = htonl (x % 4294967296) * 4294967296 + htonl (x / 4294967296)

-- How a field of two, four or eight bytes lies in memory.
abbrev pub le16 : ℕ → List ℕ
le16 x = x % 256 ∷ (x / 256 % 256) ∷ []

abbrev pub le32 : ℕ → List ℕ
le32 x = x % 256 ∷ (x / 256 % 256) ∷ (x / 65536 % 256) ∷ (x / 16777216 % 256) ∷ []

abbrev pub le64 : ℕ → List ℕ
le64 x = le32 (x % 4294967296) ++ le32 (x / 4294967296)

-- How a receiver reads two or four bytes in network order, at an offset.
abbrev pub be16_at : List ℕ → ℕ → ℕ
be16_at bs i = get_or bs i 0 * 256 + get_or bs (i + 1) 0

abbrev pub be32_at : List ℕ → ℕ → ℕ
be32_at bs i =
    get_or bs i 0 * 16777216
    + get_or bs (i + 1) 0 * 65536
    + get_or bs (i + 2) 0 * 256
    + get_or bs (i + 3) 0

-- Converting twice gives the value back, cut to the width.
pub htons-htons : (x : ℕ) → htons (htons x) ≡ x % 65536
unfolding htons
htons-htons x = omega arith

pub htonl-htonl : (x : ℕ) → htonl (htonl x) ≡ x % 4294967296
unfolding htonl
htonl-htonl x = omega arith

pub htons-lt : (x : ℕ) → htons x < 65536
unfolding htons
htons-lt x = omega arith

pub htonl-lt : (x : ℕ) → htonl x < 4294967296
unfolding htonl
htonl-lt x = omega arith

pub htons-zero : htons 0 ≡ 0
unfolding htons
htons-zero = refl

-- The memory of a converted value, read in network order, is the value.
pub be32-htonl :
    (x : ℕ)
    → htonl x % 256 * 16777216
        + htonl x / 256 % 256 * 65536
        + htonl x / 65536 % 256 * 256
        + htonl x / 16777216 % 256
      ≡ x % 4294967296
unfolding htonl
be32-htonl x = omega arith

pub be16-htons : (x : ℕ) → htons x % 256 * 256 + htons x / 256 % 256 ≡ x % 65536
unfolding htons
be16-htons x = omega arith
