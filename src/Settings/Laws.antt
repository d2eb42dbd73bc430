-- ===== src/Settings/Laws.antt =====
-- What a second start of the device finds in its flash.
use esp_fmb.Prelude.{
  ℕ, zero, suc, ◌≡◌, ◌≤◌, refl, sym, ap, ◌∙◌, Bool, true, false, Option, none, some, List, [], ◌∷◌,
  ◌==◌, length, overlay, replicate, get_or, arith,
}
use esp_fmb.Settings.{
  Nvs, opened, committed, if_writable, read_param, save_param, kept, param, save_mode, unless_same,
  mode_of, wifi_mode, wmode,
}

-- What is committed without an error can be read, and is read as it was written.
abbrev pub Stores : {F : Type 0} → Nvs F → Type 0
Stores {F} nvs =
    (name blob : List ℕ) (f : F)
    → (nvs.set_blob name blob f).0 ≡ true
    → (nvs.commit (nvs.set_blob name blob f).1).0 ≡ true
    → (nvs.opens false (nvs.commit (nvs.set_blob name blob f).1).1 ≡ true)
      × (nvs.get_blob name (length blob) (nvs.commit (nvs.set_blob name blob f).1).1 ≡ some blob)

pub length-overlay : (d : List ℕ) (n : ℕ) → length d ≤ n → length (overlay d (replicate n 0)) ≡ n
length-overlay [] zero h = refl
length-overlay [] (suc n) h = ap suc (length-overlay [] n (omega arith))
length-overlay (x ∷ d) zero h = omega arith
length-overlay (x ∷ d) (suc n) h = ap suc (length-overlay d n (omega arith))

pub overlay-full : (d s : List ℕ) → length d ≡ length s → overlay d s ≡ d
overlay-full [] [] h = refl
overlay-full [] (y ∷ s) h = absurd (omega (arith, h))
overlay-full (x ∷ d) [] h = absurd (omega (arith, h))
overlay-full (x ∷ d) (y ∷ s) h = ap (λ l. x ∷ l) (overlay-full d s (omega (arith, h)))

module _ {F : Type 0} (nvs : Nvs F) where
  committed-true : (r : Bool × F) → (committed nvs r).0 ≡ true → r.0 ≡ true
  committed-true (true, f) h = refl
  committed-true (false, f) h = h

  pub committed-commit : (r : Bool × F) → r.0 ≡ true → committed nvs r ≡ nvs.commit r.1
  committed-commit (true, f) h = refl
  committed-commit (false, f) h = cc h

  opened-true :
      (b : Bool) (name : List ℕ) (n : ℕ) (f : F)
      → b ≡ true
      → opened nvs b name n f ≡ nvs.get_blob name n f
  opened-true true name n f h = refl
  opened-true false name n f h = cc h

  module _ (stores : Stores nvs) where
    committed-read :
        (name blob : List ℕ) (f : F)
        → (committed nvs (nvs.set_blob name blob f)).0 ≡ true
        → read_param nvs name (length blob) (committed nvs (nvs.set_blob name blob f)).1 ≡ some blob
    committed-read name blob f h =
        let r = nvs.set_blob name blob f in
        let ok = committed-true r h in
        let e = committed-commit r ok in
        let k = stores name blob f ok (ap (λ z. z.0) (sym e) ∙ h) in
        ap (λ z. read_param nvs name (length blob) z.1) e
        ∙ opened-true (nvs.opens false (nvs.commit r.1).1) name (length blob) (nvs.commit r.1).1 k.0
        ∙ k.1

    writable-read :
        (b : Bool) (name blob : List ℕ) (f : F)
        → (if_writable nvs b name blob f).0 ≡ true
        → read_param nvs name (length blob) (if_writable nvs b name blob f).1 ≡ some blob
    writable-read true name blob f h = committed-read name blob f h
    writable-read false name blob f h = cc h

    save-read :
        (name blob : List ℕ) (n : ℕ) (f : F)
        → length blob ≡ n
        → (save_param nvs name blob f).0 ≡ true
        → read_param nvs name n (save_param nvs name blob f).1 ≡ some blob
    save-read name blob n f l h =
        ap (λ k. read_param nvs name k (save_param nvs name blob f).1) (sym l)
        ∙ writable-read (nvs.opens true f) name blob f h

    kept-again :
        (o : Option (List ℕ)) (name start fallback : List ℕ) (f : F)
        → length fallback ≡ length start
        → read_param nvs name (length start) f ≡ o
        → (save_param nvs name fallback f).0 ≡ true
        → param nvs true name start fallback (kept nvs true o name start fallback f).1
          ≡ kept nvs true o name start fallback f
    unfolding param
    kept-again (some b) name start fallback f l e h =
        ap (λ o. kept nvs true o name start fallback f) e
    kept-again none name start fallback f l e h =
        let g = (save_param nvs name fallback f).1 in
        ap (λ o. kept nvs true o name start fallback g)
          (save-read name fallback (length start) f l h)
        ∙ ap (λ t. (t, g)) (overlay-full fallback start l)

-- If the storage keeps what it commits and the default value can be saved without an error, then the
-- next start has the same value and leaves the flash as it is.
pub param-again :
    {F : Type 0} (nvs : Nvs F) (name start fallback : List ℕ) (f : F)
    → Stores nvs
    → length fallback ≡ length start
    → (save_param nvs name fallback f).0 ≡ true
    → param nvs true name start fallback (param nvs true name start fallback f).1
      ≡ param nvs true name start fallback f
unfolding param
param-again nvs name start fallback f st l h =
    kept-again nvs st (read_param nvs name (length start) f) name start fallback f l refl h

module _ {F : Type 0} (nvs : Nvs F) (stores : Stores nvs) (wtmp mode : ℕ) where
  saved-mode :
      (f : F)
      → (save_param nvs wmode (mode ∷ []) f).0 ≡ true
      → (mode_of nvs true
            (read_param nvs wmode 1 (save_mode nvs mode f).1)
            wtmp
            mode
            (save_mode nvs mode f).1
          ≡ save_mode nvs mode f)
  saved-mode f h =
      ap (λ o. mode_of nvs true o wtmp mode (save_mode nvs mode f).1)
        (save-read nvs stores wmode (mode ∷ []) 1 f refl h)

  unless_same-again :
      (b : Bool) (blob : List ℕ) (f : F)
      → (get_or blob 0 wtmp == mode) ≡ b
      → read_param nvs wmode 1 f ≡ some blob
      → (save_param nvs wmode (mode ∷ []) f).0 ≡ true
      → (mode_of nvs true
            (read_param nvs wmode 1 (unless_same nvs b mode f).1)
            wtmp
            mode
            (unless_same nvs b mode f).1
          ≡ (mode, (unless_same nvs b mode f).1))
  unless_same-again true blob f e r h =
      ap (λ o. mode_of nvs true o wtmp mode f) r ∙ ap (λ m. (m, f)) (ground (arith, e))
  unless_same-again false blob f e r h = saved-mode f h

  mode_of-again :
      (o : Option (List ℕ)) (f : F)
      → read_param nvs wmode 1 f ≡ o
      → (save_param nvs wmode (mode ∷ []) f).0 ≡ true
      → (mode_of nvs true
            (read_param nvs wmode 1 (mode_of nvs false o wtmp mode f).1)
            wtmp
            mode
            (mode_of nvs false o wtmp mode f).1
          ≡ (mode, (mode_of nvs false o wtmp mode f).1))
  mode_of-again none f e h = saved-mode f h
  mode_of-again (some blob) f e h = unless_same-again (get_or blob 0 wtmp == mode) blob f refl e h

-- If the storage keeps what it commits and the mode can be saved without an error, then a start with
-- the pin released behind one with the pin held is in the mode of an access point too, and leaves
-- the flash as it is.
pub wifi_mode-again :
    {F : Type 0} (nvs : Nvs F) (wtmp mode : ℕ) (f : F)
    → Stores nvs
    → (save_param nvs wmode (mode ∷ []) f).0 ≡ true
    → (wifi_mode nvs true wtmp mode (wifi_mode nvs false wtmp mode f).1
        ≡ (mode, (wifi_mode nvs false wtmp mode f).1))
unfolding wifi_mode
wifi_mode-again nvs wtmp mode f st h =
    mode_of-again nvs st wtmp mode (read_param nvs wmode 1 f) f refl h
