-- ===== src/Frame.antt =====
-- The frame of the tracker's protocol, as its receiver reads it: four zero bytes, the length of
-- the data, the data, and the checksum of the data. This is the description that the packets of
-- `make_record` and the answers of `parse_cmd` are held against.
use esp_fmb.Prelude.{ℕ, ◌/◌, ◌%◌, List, [], ◌∷◌, ◌++◌, length}
use esp_fmb.Crc.Reference.{crc16}

-- Four bytes, the highest first.
abbrev pub be32 : ℕ → List ℕ
be32 x = (x / 16777216 % 256) ∷ (x / 65536 % 256) ∷ (x / 256 % 256) ∷ x % 256 ∷ []

abbrev pub avl_frame : List ℕ → List ℕ
avl_frame body = 0 ∷ 0 ∷ 0 ∷ 0 ∷ be32 (length body) ++ (body ++ be32 (crc16 0 body))
