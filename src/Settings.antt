-- ===== src/Settings.antt =====
-- The settings in flash of main/main.c: `read_param`, `save_param`, and in `app_main` the reading of a
-- setting and of the WiFi mode. The storage of the chip is a parameter.
pub mod Boot
pub mod Laws
use esp_fmb.Prelude.{
  ℕ, Bool, true, false, not, Option, none, some, List, [], ◌∷◌, ◌==◌, overlay, length, replicate,
  get_or, if◌then◌else◌,
}
use esp_fmb.Prelude.Text.{codes}

-- The calls of the storage that the program uses, each with its success. `opens` is asked for
-- writing or for reading. A blob is read into as many bytes as are given.
pub record Nvs (F : Type 0) : Type 0 where
  pub opens : Bool → F → Bool
  pub get_blob : List ℕ → ℕ → F → Option (List ℕ)
  pub set_blob : List ℕ → List ℕ → F → Bool × F
  pub commit : F → Bool × F

abbrev pub wmode : List ℕ
wmode = codes "wmode"

-- A text in a buffer of zeros.
abbrev pub cleared : ℕ → List ℕ → List ℕ
cleared len text = overlay text (replicate len 0)

module _ {F : Type 0} (nvs : Nvs F) where
  abbrev pub opened : Bool → List ℕ → ℕ → F → Option (List ℕ)
  opened true name len f = nvs.get_blob name len f
  opened false name len f = none

  -- None for an error.
  abbrev pub read_param : List ℕ → ℕ → F → Option (List ℕ)
  read_param name len f = opened (nvs.opens false f) name len f

  abbrev pub committed : Bool × F → Bool × F
  committed (true, f) = nvs.commit f
  committed (false, f) = (false, f)

  abbrev pub if_writable : Bool → List ℕ → List ℕ → F → Bool × F
  if_writable true name blob f = committed (nvs.set_blob name blob f)
  if_writable false name blob f = (false, f)

  -- Whether it was saved, and the flash.
  abbrev pub save_param : List ℕ → List ℕ → F → Bool × F
  save_param name blob f = if_writable (nvs.opens true f) name blob f

  -- A setting that is read over `start`, or is `fallback` and saved so: when it is not in the flash,
  -- and when it is not to be kept.
  abbrev pub kept : Bool → Option (List ℕ) → List ℕ → List ℕ → List ℕ → F → List ℕ × F
  kept true (some blob) name start fallback f = (overlay blob start, f)
  kept true none name start fallback f = (fallback, (save_param name fallback f).1)
  kept false o name start fallback f = (fallback, (save_param name fallback f).1)

  unfoldable pub param : Bool → List ℕ → List ℕ → List ℕ → F → List ℕ × F
  param keep name start fallback f =
      kept keep (read_param name (length start) f) name start fallback f

  abbrev pub save_mode : ℕ → F → ℕ × F
  save_mode ap f = (ap, (save_param wmode (ap ∷ []) f).1)

  abbrev pub unless_same : Bool → ℕ → F → ℕ × F
  unless_same true ap f = (ap, f)
  unless_same false ap f = save_mode ap f

  -- `wtmp` is what the variable holds before it is read.
  abbrev pub mode_of : Bool → Option (List ℕ) → ℕ → ℕ → F → ℕ × F
  mode_of true (some blob) wtmp ap f = (get_or blob 0 wtmp, f)
  mode_of true none wtmp ap f = save_mode ap f
  mode_of false (some blob) wtmp ap f = unless_same (get_or blob 0 wtmp == ap) ap f
  mode_of false none wtmp ap f = save_mode ap f

  -- The WiFi mode: `released` is the level of the pin, and `ap` is WIFI_MODE_AP.
  unfoldable pub wifi_mode : Bool → ℕ → ℕ → F → ℕ × F
  wifi_mode released wtmp ap f = mode_of released (read_param wmode 1 f) wtmp ap f
