-- ===== src/Display.antt =====
-- The display: the commands of main/ssd1306.c. A function gives the transactions of the i2c bus,
-- each the bytes between a start and a stop; `lcd_mutex` is waited for without limit, and what the
-- bus answers is only printed.
pub mod Font
pub mod Layout
use Font.{font8x8}
use esp_fmb.Prelude.{
  ℕ, zero, suc, ◌+◌, ◌-◌, ◌*◌, ◌/◌, ◌%◌, ◌^◌, Bool, true, false, ◌&&◌, Option, none, some, List, [],
  ◌∷◌, ◌++◌, ltb, ◌==◌, if◌then◌else◌, length, take, get_elem?, replicate, bit_or,
}
use esp_fmb.Prelude.Words.{u8}

-- The address with the direction, and the control bytes.
abbrev pub sla_write : ℕ
sla_write = 0x78

abbrev pub cmd_single : ℕ
cmd_single = 0x80

abbrev pub cmd_stream : ℕ
cmd_stream = 0x00

abbrev pub data_stream : ℕ
data_stream = 0x40

-- `OLED_CMD_DISPLAY_ON` or `OLED_CMD_DISPLAY_OFF`.
unfoldable pub ssd1306_on : Bool → List (List ℕ)
ssd1306_on flag = (sla_write ∷ cmd_single ∷ (if flag then 0xaf else 0xae) ∷ []) ∷ []

-- `OLED_CMD_SET_COLUMN_RANGE` and `OLED_CMD_SET_PAGE_RANGE`.
abbrev pub ranges : ℕ → ℕ → List ℕ
ranges col page = 0x21 ∷ col ∷ 0x7f ∷ 0x22 ∷ page ∷ 0x07 ∷ []

unfoldable pub ssd1306_init : ℕ → List (List ℕ)
ssd1306_init invert =
    (sla_write ∷ cmd_stream ∷ 0x8d ∷ 0x14 ∷ 0xa1 ∷ 0xc8 ∷ ranges 0 0 ++ (0xaf ∷ invert ∷ [])) ∷ []

-- `OLED_CMD_DISPLAY_INVERTED` and `OLED_CMD_DISPLAY_NORMAL`; with the new `invert`.
unfoldable pub ssd1306_invert : ℕ → ℕ × List (List ℕ)
ssd1306_invert invert =
    let invert' = if invert == 0xa7 then 0xa6 else 0xa7 in
    (invert', (sla_write ∷ cmd_single ∷ invert' ∷ []) ∷ [])

-- A page with its data.
abbrev pub page : ℕ → List ℕ → List ℕ
page i bytes = sla_write ∷ cmd_single ∷ bit_or 0xb0 i ∷ data_stream ∷ bytes

-- `left` pages from number `i` on.
unfoldable pub pages : List ℕ → ℕ → ℕ → List (List ℕ)
pages bytes zero i = []
pages bytes (suc left) i = page i bytes ∷ pages bytes left (i + 1)

unfoldable pub ssd1306_clear : List (List ℕ)
ssd1306_clear = pages (replicate 128 0) 8 0

-- The lines from `cy` on, counted from one. `none` is a range past page 255, on which the loop
-- with its variable of 8 bits does not end.
unfoldable pub ssd1306_clear_lines : ℕ → ℕ → Option (List (List ℕ))
ssd1306_clear_lines cy cnt =
    let first = u8 (cy + 255) in
    if ltb 255 (first + cnt)
    then none
    else some ((sla_write ∷ cmd_stream ∷ ranges 0 first) ∷ pages (replicate 128 0) cnt first)

-- `0xFF >> (j % 8)` for `left` columns from `j` on.
unfoldable pub pattern_bytes : ℕ → ℕ → List ℕ
pattern_bytes zero j = []
pattern_bytes (suc left) j = (0xff / 2 ^ (j % 8)) ∷ pattern_bytes left (j + 1)

unfoldable pub ssd1306_pattern : List (List ℕ)
ssd1306_pattern = pages (pattern_bytes 128 0) 8 0

unfoldable pub ssd1306_contrast : ℕ → List (List ℕ)
ssd1306_contrast value = (sla_write ∷ cmd_stream ∷ 0x81 ∷ value ∷ []) ∷ []

unfoldable pub ssd1306_shift : Bool → List (List ℕ)
ssd1306_shift left =
    (sla_write
      ∷ cmd_stream
      ∷ 0x2e
      ∷ (if left then 0x27 else 0x26)
      ∷ 0x00
      ∷ 0x00
      ∷ 0x07
      ∷ 0x3f
      ∷ 0x2f
      ∷ [])
    ∷ []

unfoldable pub ssd1306_scroll : Bool → List (List ℕ)
ssd1306_scroll flag =
    (sla_write
      ∷ cmd_stream
      ∷ 0x27
      ∷ 0x00
      ∷ 0x00
      ∷ 0x07
      ∷ 0x01
      ∷ 0x3f
      ∷ 0xa3
      ∷ 0x20
      ∷ 0x40
      ∷ (if flag then 0x2f else 0x2e)
      ∷ [])
    ∷ []

-- `lin` after a character.
abbrev pub next_line : ℕ → ℕ → ℕ
next_line lin c = if c == b'\n' then u8 (lin + 1) else lin

abbrev pub glyph_bytes : Option (List ℕ) → Option (List ℕ)
glyph_bytes none = none
glyph_bytes (some dots) = some (sla_write ∷ data_stream ∷ dots)

-- A character, with the page behind it; `none` is a character behind the end of the font.
unfoldable pub char_bytes : ℕ → ℕ → Option (List ℕ)
char_bytes lin c =
    if c == b'\n'
    then some (sla_write ∷ cmd_stream ∷ 0x00 ∷ 0x10 ∷ bit_or 0xb0 lin ∷ [])
    else glyph_bytes (get_elem? font8x8 c)

abbrev pub prepend : Option (List ℕ) → Option (List (List ℕ)) → Option (List (List ℕ))
prepend none rest = none
prepend (some bytes) none = none
prepend (some bytes) (some rest) = some (bytes ∷ rest)

-- The characters, from page `lin` on.
unfoldable pub draw : ℕ → List ℕ → Option (List (List ℕ))
draw lin [] = some []
draw lin (c ∷ s) = prepend (char_bytes (next_line lin c) c) (draw (next_line lin c) s)

-- The text from column `cx` and line `cy` on, both counted from one; the length is cut to 8 bits.
unfoldable pub ssd1306_text_xy : List ℕ → ℕ → ℕ → Option (List (List ℕ))
ssd1306_text_xy stroka cx cy =
    let lin = u8 (cy + 255) in
    let col = u8 (cx + 255) in
    prepend (some (sla_write ∷ cmd_stream ∷ ranges (u8 (col * 8)) lin))
      (draw lin (take (length stroka % 256) stroka))

unfoldable pub ssd1306_text : List ℕ → Option (List (List ℕ))
ssd1306_text stroka = ssd1306_text_xy stroka 1 1

-- The column from which a text of `len` characters is centred in 16.
unfoldable pub ssd1306_calcx : ℕ → ℕ
ssd1306_calcx len = if ltb 0 len && ltb len 16 then (16 - len) / 2 + 1 else 1
