-- ===== src/Storage/Laws.antt =====
-- What the calls on files find and leave.
use esp_fmb.Prelude.{
  ℕ, ◌<◌, ◌≤◌, ◌≡◌, refl, sym, ap, ap₂, ◌∙◌, Bool, true, false, ◌&&◌, ◌||◌, none, some, List, [],
  ◌∷◌, ◌==◌, inl, inr, map, length, take-le, arith, Bool-cases, if◌then◌else◌,
}
use esp_fmb.Prelude.Text.{starts_with, strstr, strchr, cut_at}
use esp_fmb.Control.{strcmp_eq}
use esp_fmb.Storage.{
  Files, sd_conf, lower, same_name, find_file, put_file, is_some, strcasestr, any_conf, print_dir,
  FileRun, rd_file, wr_file,
}

strcmp_eq-eq : (s t : List ℕ) → strcmp_eq s t ≡ true → s ≡ t
strcmp_eq-eq [] [] h = refl
strcmp_eq-eq [] (d ∷ t) h = cc h
strcmp_eq-eq (c ∷ s) [] h = cc h
strcmp_eq-eq (c ∷ s) (d ∷ t) h = ground (arith, strcmp_eq-eq s t)

pub strcmp_eq_self : (s : List ℕ) → strcmp_eq s s ≡ true
strcmp_eq_self [] = refl
strcmp_eq_self (c ∷ s) = ground (arith, strcmp_eq_self s)

starts_with_self : (s : List ℕ) → starts_with s s ≡ true
starts_with_self [] = refl
starts_with_self (c ∷ s) = ground (arith, starts_with_self s)

strstr_self : (s : List ℕ) → is_some (strstr s s) ≡ true
unfolding strstr
strstr_self [] = refl
strstr_self (c ∷ s) =
    ap (λ b. is_some (if b then some (c ∷ s) else strstr s (c ∷ s))) (starts_with_self (c ∷ s))

or-true : (a b : Bool) → b ≡ true → (a || b) ≡ true
or-true true b h = refl
or-true false b h = h

pub find_file-any :
    (fs : Files) (text : List ℕ) → find_file sd_conf fs ≡ some text → any_conf fs ≡ true
find_file-any [] text h = cc h
find_file-any ((name, old) ∷ fs) text h = elim (Bool-cases (same_name name sd_conf)) [
  | inl e ↦
      ap (λ b. b || any_conf fs)
        (ap (λ l. is_some (strstr l (map lower sd_conf)))
            (strcmp_eq-eq (map lower name) (map lower sd_conf) e)
          ∙ strstr_self (map lower sd_conf))
  | inr e ↦
      or-true (strcasestr name sd_conf) (any_conf fs)
        (find_file-any fs text (ap (λ b. if b then some old else find_file sd_conf fs) (sym e) ∙ h))
]

pub find_file-put_file :
    (name text : List ℕ) (fs : Files) → find_file name (put_file name text fs) ≡ some text
find_file-put_file name text [] =
    ap (λ b. if b then some text else none) (strcmp_eq_self (map lower name))
find_file-put_file name text ((other, old) ∷ fs) = ground (arith, find_file-put_file name text fs)

-- No byte of the text is zero.
abbrev pub NoZero : List ℕ → Type 0
NoZero [] = Unit
NoZero (c ∷ s) = ((c == 0) ≡ false) × NoZero s

strchr-NoZero : (s : List ℕ) → NoZero s → strchr s 0 ≡ none
unfolding strchr
strchr-NoZero [] h = refl
strchr-NoZero (c ∷ s) h = rw (h.0, strchr-NoZero s h.1) refl

pub cut_at-NoZero : (s : List ℕ) → NoZero s → (cut_at 0 s).0 ≡ s
unfolding cut_at
cut_at-NoZero s h = rw (cut_at, strchr-NoZero s h) refl

-- Everything that a call needs is there, for `n` bytes.
abbrev pub Complete : ℕ → FileRun → Type 0
Complete n r = (r.alloc_ok ≡ true) × (r.open_ok ≡ true) × (n ≤ r.count)

pub rd_file-all :
    (r : FileRun) (fs : Files) (text : List ℕ)
    → find_file sd_conf fs ≡ some text
    → 0 < length text
    → length text < 2048
    → Complete (length text) r
    → (rd_file true r sd_conf fs).0 ≡ some text
unfolding rd_file
rd_file-all r fs [] h z l k = absurd (omega (arith, z))
rd_file-all r fs (c ∷ text) h z l k =
    rw (h, k.0, k.1, take-le 2047 (c ∷ text) (omega arith), take-le r.count (c ∷ text) k.2) refl

pub wr_file-all :
    (r : FileRun) (fs : Files) (text : List ℕ)
    → Complete (length text) r
    → (wr_file true r sd_conf text fs).1 ≡ put_file sd_conf text fs
unfolding wr_file
wr_file-all r fs text k = rw (k.1, take-le r.count text k.2) refl

pub print_dir-any :
    (listed : Bool) (fs : Files) (b : Bool)
    → listed ≡ true
    → any_conf fs ≡ b
    → print_dir listed fs ≡ b
unfolding print_dir
print_dir-any listed fs b l a = ap₂ (λ x y. x && y) l a
