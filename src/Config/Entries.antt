-- ===== src/Config/Entries.antt =====
-- The entries of a scenario in a configuration file.
use esp_fmb.Prelude.{
  ℕ, ◌<◌, ◌≡◌, refl, ap, ap₂, ◌∙◌, false, some, List, [], ◌∷◌, ◌++◌, arith, ◌==◌, if◌then◌else◌,
}
use esp_fmb.Prelude.Int.{ℤ, pos}
use esp_fmb.Prelude.Text.{codes, strchr, atoi, print_u}
use esp_fmb.Prelude.Text.Decimal.{Digits, print_u-Digits, atoi-print_u}
use esp_fmb.Scenario.{
  Rumb, park, north, east, south, west, north_east, north_west, south_east, south_west, stop,
}
use esp_fmb.Config.{entry_of, step_of, is_still, find_entry, parse_entry}

-- A number does not hold a colon.
strchr-Digits : (s rest : List ℕ) → Digits s → strchr (s ++ b':' ∷ rest) b':' ≡ some (s, rest)
unfolding strchr
strchr-Digits [] rest h = refl
strchr-Digits (c ∷ s) rest h =
    let e : (c == 58) ≡ false = ground arith in rw (e, strchr-Digits s rest h.2) refl

step-printed :
    (dir : Rumb) (t k : ℕ)
    → t < 2147483648
    → k < 2147483648
    → let rest = print_u t ++ b':' ∷ print_u k in
      step_of dir rest (strchr rest b':')
      ≡ entry_of (record { dir = dir; delta = pos t; kols = pos k })
step-printed dir t k h l =
    ap (step_of dir (print_u t ++ b':' ∷ print_u k))
      (strchr-Digits (print_u t) (print_u k) (print_u-Digits t))
    ∙ ap₂ (λ (d n : ℤ). entry_of (record { dir = dir; delta = d; kols = n })) (atoi-print_u t h)
        (atoi-print_u k l)

still-printed :
    (dir : Rumb) (k : ℕ)
    → k < 2147483648
    → entry_of (record { dir = dir; delta = pos 0; kols = atoi (print_u k) })
      ≡ entry_of (record { dir = dir; delta = pos 0; kols = pos k })
still-printed dir k l =
    ap (λ (n : ℤ). entry_of (record { dir = dir; delta = pos 0; kols = n })) (atoi-print_u k l)

-- The names of the configuration file.
abbrev pub rumb_name : Rumb → List ℕ
rumb_name park = codes "Park"
rumb_name north = codes "North"
rumb_name east = codes "East"
rumb_name south = codes "South"
rumb_name west = codes "West"
rumb_name north_east = codes "North-East"
rumb_name north_west = codes "North-West"
rumb_name south_east = codes "South-East"
rumb_name south_west = codes "South-West"
rumb_name stop = codes "Stop"

-- An entry as the file writes it, behind the "#": a stop or a park has no step.
abbrev pub entry_text : Rumb → ℕ → ℕ → List ℕ
entry_text dir t k =
    rumb_name dir ++ b':' ∷ (if is_still dir then print_u k else print_u t ++ b':' ∷ print_u k)

-- The text of an entry with a step and a number of measurements below 2^31, as they are printed, is read back
-- as the entry; the step is 0 for a stop or a park.
pub parse_entry-text :
    (dir : Rumb) (t k : ℕ)
    → t < 2147483648
    → k < 2147483648
    → parse_entry (entry_text dir t k)
      ≡ entry_of (record { dir = dir; delta = if is_still dir then pos 0 else pos t; kols = pos k })
unfolding parse_entry find_entry strchr
parse_entry-text park t k h l = still-printed park k l
parse_entry-text north t k h l = step-printed north t k h l
parse_entry-text east t k h l = step-printed east t k h l
parse_entry-text south t k h l = step-printed south t k h l
parse_entry-text west t k h l = step-printed west t k h l
parse_entry-text north_east t k h l = step-printed north_east t k h l
parse_entry-text north_west t k h l = step-printed north_west t k h l
parse_entry-text south_east t k h l = step-printed south_east t k h l
parse_entry-text south_west t k h l = step-printed south_west t k h l
parse_entry-text stop t k h l = still-printed stop k l
