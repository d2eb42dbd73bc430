-- ===== src/Settings/Boot/Steps.antt =====
-- What one step of the start leaves in the flash, and what the same step does at a second start.
use esp_fmb.Prelude.{
  ℕ, ◌≡◌, refl, sym, ap, ◌∙◌, Bool, true, false, Option, none, some, List, [], ◌∷◌, ◌==◌, length,
  get_or, arith,
}
use esp_fmb.Control.{strcmp_eq}
use esp_fmb.Settings.{
  Nvs, read_param, save_param, kept, param, wmode, save_mode, unless_same, mode_of, wifi_mode,
}
use esp_fmb.Settings.Laws.{overlay-full, committed-commit}
use esp_fmb.Settings.Boot.{Step}

-- A storage without errors: a blob is read as it was written last, and a write leaves the others.
pub record Works {F : Type 0} (nvs : Nvs F) : Type 0 where
  pub opens_true : (b : Bool) (f : F) → nvs.opens b f ≡ true
  pub set_true : (name blob : List ℕ) (f : F) → (nvs.set_blob name blob f).0 ≡ true
  pub commit_true : (f : F) → (nvs.commit f).0 ≡ true
  pub get_set :
      (name blob : List ℕ) (f : F)
      → nvs.get_blob name (length blob) (nvs.set_blob name blob f).1 ≡ some blob
  pub get_other :
      (name blob m : List ℕ) (n : ℕ) (f : F)
      → strcmp_eq name m ≡ false
      → nvs.get_blob m n (nvs.set_blob name blob f).1 ≡ nvs.get_blob m n f
  pub get_commit :
      (m : List ℕ) (n : ℕ) (f : F) → nvs.get_blob m n (nvs.commit f).1 ≡ nvs.get_blob m n f

module _ {F : Type 0} (nvs : Nvs F) (works : Works nvs) where
  read-get : (name : List ℕ) (n : ℕ) (f : F) → read_param nvs name n f ≡ nvs.get_blob name n f
  read-get name n f = rw (works.opens_true false f) refl

  save-flash :
      (name blob : List ℕ) (f : F)
      → (save_param nvs name blob f).1 ≡ (nvs.commit (nvs.set_blob name blob f).1).1
  save-flash name blob f =
      rw (works.opens_true true f) (
        ap (λ z. z.1)
          (committed-commit nvs (nvs.set_blob name blob f) (works.set_true name blob f)))

  get-save :
      (m name blob : List ℕ) (n : ℕ) (f : F)
      → read_param nvs m n (save_param nvs name blob f).1
        ≡ nvs.get_blob m n (nvs.set_blob name blob f).1
  get-save m name blob n f =
      read-get m n (save_param nvs name blob f).1
      ∙ ap (nvs.get_blob m n) (save-flash name blob f)
      ∙ works.get_commit m n (nvs.set_blob name blob f).1

  pub saved :
      (name blob : List ℕ) (n : ℕ) (f : F)
      → length blob ≡ n
      → read_param nvs name n (save_param nvs name blob f).1 ≡ some blob
  saved name blob n f l =
      ap (λ k. read_param nvs name k (save_param nvs name blob f).1) (sym l)
      ∙ get-save name name blob (length blob) f
      ∙ works.get_set name blob f

  pub untouched :
      (m name blob : List ℕ) (n : ℕ) (f : F)
      → strcmp_eq name m ≡ false
      → read_param nvs m n (save_param nvs name blob f).1 ≡ read_param nvs m n f
  untouched m name blob n f h =
      get-save m name blob n f ∙ works.get_other name blob m n f h ∙ sym (read-get m n f)

  -- The step `m` touches the setting `a` only, and where that setting is as `m` has left it, the step
  -- `m'` gives the same value and changes nothing.
  pub record Reads (a : List ℕ) {A : Type 0} (m m' : Step F A) : Type 0 where
    pub again :
        (f g : F)
        → ((n : ℕ) → read_param nvs a n g ≡ read_param nvs a n (m f).1)
        → m' g ≡ ((m f).0, g)
    pub apart :
        (c : List ℕ) (n : ℕ) (f : F)
        → strcmp_eq a c ≡ false
        → read_param nvs c n (m f).1 ≡ read_param nvs c n f

  kept-again :
      (keep : Bool) (o : Option (List ℕ)) (name start fallback : List ℕ) (f g : F)
      → length fallback ≡ length start
      → read_param nvs name (length start) f ≡ o
      → (read_param nvs name (length start) g
          ≡ read_param nvs name (length start) (kept nvs keep o name start fallback f).1)
      → param nvs true name start fallback g ≡ ((kept nvs keep o name start fallback f).0, g)
  unfolding param
  kept-again true (some b) name start fallback f g l e h =
      ap (λ r. kept nvs true r name start fallback g) (h ∙ e)
  kept-again true none name start fallback f g l e h =
      ap (λ r. kept nvs true r name start fallback g) (h ∙ saved name fallback (length start) f l)
      ∙ ap (λ t. (t, g)) (overlay-full fallback start l)
  kept-again false o name start fallback f g l e h =
      ap (λ r. kept nvs true r name start fallback g) (h ∙ saved name fallback (length start) f l)
      ∙ ap (λ t. (t, g)) (overlay-full fallback start l)

  kept-apart :
      (keep : Bool) (o : Option (List ℕ)) (name start fallback c : List ℕ) (n : ℕ) (f : F)
      → strcmp_eq name c ≡ false
      → read_param nvs c n (kept nvs keep o name start fallback f).1 ≡ read_param nvs c n f
  kept-apart true (some b) name start fallback c n f h = refl
  kept-apart true none name start fallback c n f h = untouched c name fallback n f h
  kept-apart false o name start fallback c n f h = untouched c name fallback n f h

  pub param-Reads :
      (keep : Bool) (name start fallback : List ℕ)
      → length fallback ≡ length start
      → Reads name (param nvs keep name start fallback) (param nvs true name start fallback)
  unfolding param
  param-Reads keep name start fallback l = record {
    again = λ f g h.
        kept-again keep (read_param nvs name (length start) f) name start fallback f g l refl
          (h (length start));
    apart = λ c n f h.
        kept-apart keep (read_param nvs name (length start) f) name start fallback c n f h;
  }

  saved_mode :
      (w mode : ℕ) (f g : F)
      → ((n : ℕ) → read_param nvs wmode n g ≡ read_param nvs wmode n (save_mode nvs mode f).1)
      → mode_of nvs true (read_param nvs wmode 1 g) w mode g ≡ (mode, g)
  saved_mode w mode f g h =
      ap (λ r. mode_of nvs true r w mode g) (h 1 ∙ saved wmode (mode ∷ []) 1 f refl)

  same_mode :
      (b : Bool) (blob : List ℕ) (w mode : ℕ) (f g : F)
      → (get_or blob 0 w == mode) ≡ b
      → read_param nvs wmode 1 f ≡ some blob
      → ((n : ℕ) → read_param nvs wmode n g ≡ read_param nvs wmode n (unless_same nvs b mode f).1)
      → mode_of nvs true (read_param nvs wmode 1 g) w mode g ≡ ((unless_same nvs b mode f).0, g)
  same_mode true blob w mode f g e r h =
      ap (λ o. mode_of nvs true o w mode g) (h 1 ∙ r) ∙ ap (λ m. (m, g)) (ground (arith, e))
  same_mode false blob w mode f g e r h = saved_mode w mode f g h

  mode_of-again :
      (pin : Bool) (o : Option (List ℕ)) (w mode : ℕ) (f g : F)
      → read_param nvs wmode 1 f ≡ o
      → ((n : ℕ) → read_param nvs wmode n g ≡ read_param nvs wmode n (mode_of nvs pin o w mode f).1)
      → mode_of nvs true (read_param nvs wmode 1 g) w mode g ≡ ((mode_of nvs pin o w mode f).0, g)
  mode_of-again true (some b) w mode f g e h = ap (λ o. mode_of nvs true o w mode g) (h 1 ∙ e)
  mode_of-again true none w mode f g e h = saved_mode w mode f g h
  mode_of-again false (some b) w mode f g e h =
      same_mode (get_or b 0 w == mode) b w mode f g refl e h
  mode_of-again false none w mode f g e h = saved_mode w mode f g h

  unless_same-apart :
      (b : Bool) (mode : ℕ) (c : List ℕ) (n : ℕ) (f : F)
      → strcmp_eq wmode c ≡ false
      → read_param nvs c n (unless_same nvs b mode f).1 ≡ read_param nvs c n f
  unless_same-apart true mode c n f h = refl
  unless_same-apart false mode c n f h = untouched c wmode (mode ∷ []) n f h

  mode_of-apart :
      (pin : Bool) (o : Option (List ℕ)) (w mode : ℕ) (c : List ℕ) (n : ℕ) (f : F)
      → strcmp_eq wmode c ≡ false
      → read_param nvs c n (mode_of nvs pin o w mode f).1 ≡ read_param nvs c n f
  mode_of-apart true (some b) w mode c n f h = refl
  mode_of-apart true none w mode c n f h = untouched c wmode (mode ∷ []) n f h
  mode_of-apart false (some b) w mode c n f h =
      unless_same-apart (get_or b 0 w == mode) mode c n f h
  mode_of-apart false none w mode c n f h = untouched c wmode (mode ∷ []) n f h

  pub wifi_mode-Reads :
      (pin : Bool) (w mode : ℕ) → Reads wmode (wifi_mode nvs pin w mode) (wifi_mode nvs true w mode)
  unfolding wifi_mode
  wifi_mode-Reads pin w mode = record {
    again = λ f g h. mode_of-again pin (read_param nvs wmode 1 f) w mode f g refl h;
    apart = λ c n f h. mode_of-apart pin (read_param nvs wmode 1 f) w mode c n f h;
  }
