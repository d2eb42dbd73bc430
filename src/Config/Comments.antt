-- ===== src/Config/Comments.antt =====
-- The comments of a configuration file.
use esp_fmb.Prelude.{
  ℕ, ◌≡◌, refl, ap, ◌∙◌, Bool, true, false, ◌&&◌, Option, List, [], ◌∷◌, length, ltb, if◌then◌else◌,
  inl, inr, Bool-cases,
}
use esp_fmb.Scenario.{HdrRec}
use esp_fmb.Config.{Cfg, is_comment, read_line, read_lines}

-- The lines that do not begin with a semicolon.
abbrev pub without_comments : List (List ℕ) → List (List ℕ)
without_comments [] = []
without_comments (buf ∷ bufs) =
    let rest = without_comments bufs in if is_comment buf then rest else buf ∷ rest

and_false : (b : Bool) → b && false ≡ false
and_false true = refl
and_false false = refl

skipped :
    (coord : List ℕ → ℕ) (allocated : HdrRec → Bool) (buf : List ℕ) (c : Option Cfg)
    → is_comment buf ≡ true
    → read_line coord allocated buf c ≡ c
unfolding read_line
skipped coord allocated buf c e = rw (e, and_false (ltb 5 (length buf))) refl

-- Lines that begin with a semicolon change nothing: a file is read as it is without them.
pub read_lines-without_comments :
    (coord : List ℕ → ℕ) (allocated : HdrRec → Bool) (bufs : List (List ℕ)) (c : Option Cfg)
    → read_lines coord allocated bufs c ≡ read_lines coord allocated (without_comments bufs) c
unfolding read_lines
read_lines-without_comments coord allocated [] c = refl
read_lines-without_comments coord allocated (buf ∷ bufs) c = elim (Bool-cases (is_comment buf)) [
  | inl e ↦
      rw (without_comments, e)
        (ap (read_lines coord allocated bufs) (skipped coord allocated buf c e)
          ∙ read_lines-without_comments coord allocated bufs c)
  | inr e ↦
      rw (without_comments, e)
        (read_lines-without_comments coord allocated bufs (read_line coord allocated buf c))
]
