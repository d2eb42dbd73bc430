-- ===== src/Display/Layout.antt =====
-- Where the display shows a text.
use esp_fmb.Prelude.{
  ℕ, zero, suc, ◌+◌, ◌-◌, ◌*◌, ◌≤◌, ◌<◌, ◌≡◌, ◌≢◌, refl, ap, ap₂, ◌∙◌, Bool, true, false, Option,
  some, List, [], ◌∷◌, length, get_elem?, get_or, drop, map, take, take-all, ◌&&◌, arith, ◌==◌,
}
use esp_fmb.Prelude.Words.{u8}
use esp_fmb.Display.Font.{font8x8}
use esp_fmb.Display.{
  next_line, char_bytes, prepend, draw, ssd1306_text_xy, ssd1306_calcx, sla_write, data_stream,
  cmd_stream, ranges,
}

-- Characters of the font that do not end the line.
abbrev pub Printable : List ℕ → Type 0
Printable [] = Unit
Printable (c ∷ s) = (c < 128) × (c ≢ 10) × Printable s

-- What is sent for a character.
abbrev pub glyph : ℕ → List ℕ
glyph c = sla_write ∷ data_stream ∷ get_or font8x8 c []

get_elem?-get_or {ℓ} :
    {A : Type ℓ} (xs : List A) (i : ℕ) (a : A)
    → i < length xs
    → get_elem? xs i ≡ some (get_or xs i a)
get_elem?-get_or [] i a h = absurd (omega arith)
get_elem?-get_or (x ∷ xs) zero a h = refl
get_elem?-get_or (x ∷ xs) (suc i) a h = get_elem?-get_or xs i a (omega arith)

font_size : length font8x8 ≡ 128
unfolding font8x8
font_size = refl

char_bytes-Printable :
    (lin c : ℕ)
    → c < 128
    → c ≢ 10
    → (char_bytes (next_line lin c) c ≡ some (glyph c)) × (next_line lin c ≡ lin)
unfolding char_bytes
char_bytes-Printable lin c h ne =
    let e : (c == 10) ≡ false = ground arith in
    (
      rw (e, get_elem?-get_or font8x8 c [] (omega (arith, font_size, h))) refl,
      rw (next_line, e) refl,
    )

draw-Printable : (lin : ℕ) (s : List ℕ) → Printable s → draw lin s ≡ some (map glyph s)
unfolding draw
draw-Printable lin [] h = refl
draw-Printable lin (c ∷ s) h =
    let (drawn, line) = char_bytes-Printable lin c h.0 h.1 in
    ap₂ prepend drawn (ap (λ (l : ℕ). draw l s) line ∙ draw-Printable lin s h.2)

-- The dots that the transactions behind the first write, and the columns they take.
abbrev pub columns : List (List ℕ) → ℕ
columns [] = 0
columns (t ∷ ts) = length (drop 2 t) + columns ts

-- Every character has eight columns.
all_eight : List (List ℕ) → Bool
all_eight [] = true
all_eight (dots ∷ font) = (length dots == 8) && all_eight font

font_columns : all_eight font8x8 ≡ true
unfolding font8x8 all_eight
font_columns = refl

all_eight_at :
    (font : List (List ℕ)) (c : ℕ)
    → all_eight font ≡ true
    → c < length font
    → length (get_or font c []) ≡ 8
unfolding all_eight
all_eight_at [] c e h = absurd (omega arith)
all_eight_at (dots ∷ font) zero e h = ground arith
all_eight_at (dots ∷ font) (suc c) e h = ground (arith, all_eight_at font c)

eight : (c : ℕ) → c < 128 → length (get_or font8x8 c []) ≡ 8
eight c h = all_eight_at font8x8 c font_columns (omega (arith, font_size, h))

columns_glyphs : (s : List ℕ) → Printable s → columns (map glyph s) ≡ 8 * length s
columns_glyphs [] h = refl
columns_glyphs (c ∷ s) h = omega (arith, eight c h.0, columns_glyphs s h.2)

-- A text of 1 to 16 printable characters that is placed by `ssd1306_calcx` sets the column to the
-- left margin and draws its glyphs; they end within the 128 columns, and the margins differ by
-- at most one character.
pub text_xy-calcx :
    (s : List ℕ) (cy : ℕ)
    → Printable s
    → 1 ≤ length s
    → length s ≤ 16
    → let margin = 8 * (ssd1306_calcx (length s) - 1) in
      (ssd1306_text_xy s (ssd1306_calcx (length s)) cy
        ≡ some ((sla_write ∷ cmd_stream ∷ ranges margin (u8 (cy + 255))) ∷ map glyph s))
      × (margin + columns (map glyph s) ≤ 128)
      × (128 - (margin + columns (map glyph s)) ≤ margin + 8)
      × (margin ≤ 128 - (margin + columns (map glyph s)))
unfolding ssd1306_text_xy ssd1306_calcx
text_xy-calcx s cy h lo hi = (
  ap₂
      (λ (col : ℕ) (rest : Option (List (List ℕ))).
        prepend (some (sla_write ∷ cmd_stream ∷ ranges col (u8 (cy + 255)))) rest)
      (ground arith)
      (ap (λ (n : ℕ). draw (u8 (cy + 255)) (take n s)) (omega arith)
        ∙ ap (draw (u8 (cy + 255))) (take-all s)
        ∙ draw-Printable (u8 (cy + 255)) s h),
  ground (arith, columns_glyphs s h),
  ground (arith, columns_glyphs s h),
  ground (arith, columns_glyphs s h),
)
