-- ===== src/Tests/Settings.antt =====
-- Two starts with a flash that holds the mode of a station and too short a port.
use esp_fmb.Prelude.{
  true, false, ◌≡◌, refl, ap, ◌∙◌, arith, Option, none, some, List, ℕ, [], ◌∷◌, leb, length,
  if◌then◌else◌,
}
use esp_fmb.Prelude.Text.{codes}
use esp_fmb.Control.{strcmp_eq}
use esp_fmb.Settings.{Nvs}
use esp_fmb.Storage.Laws.{strcmp_eq_self}
use esp_fmb.Settings.Boot.{Build, read_settings}
use esp_fmb.Settings.Boot.Steps.{Works}
use esp_fmb.Settings.Boot.Laws.{released, read_settings-again}

abbrev pub Flash : Type 0
Flash = List ℕ → Option (List ℕ)

abbrev pub if_fits : ℕ → Option (List ℕ) → Option (List ℕ)
if_fits n none = none
if_fits n (some blob) = if leb (length blob) n then some blob else none

abbrev pub flash : Nvs Flash
flash = record {
  opens = λ writing f. true;
  get_blob = λ name n f. if_fits n (f name);
  set_blob = λ name blob f. (true, λ m. if strcmp_eq name m then some blob else f m);
  commit = λ f. (true, f);
}

fits_self : (blob : List ℕ) → if_fits (length blob) (some blob) ≡ some blob
fits_self blob = ground arith

pub flash-Works : Works flash
flash-Works = record {
  opens_true = λ b f. refl;
  set_true = λ name blob f. refl;
  commit_true = λ f. refl;
  get_set = λ name blob f.
      ap (λ b. if_fits (length blob) (if b then some blob else f name)) (strcmp_eq_self name)
      ∙ fits_self blob;
  get_other = λ name blob m n f h. ap (λ b. if_fits n (if b then some blob else f m)) h;
  get_commit = λ m n f. refl;
}

abbrev pub build : Build
build = record {
  wifi_pin = false;
  wmode_pin = false;
  macs = some (36 ∷ 10 ∷ 196 ∷ 1 ∷ 2 ∷ 3 ∷ []);
  wifi_ssid = codes "armLinux";
  wifi_pass = codes "armLinux32";
  wtmp = 0;
  wifi_mode_ap = 2;
}

used : Flash
used name =
    if strcmp_eq name (codes "wmode")
    then some (1 ∷ [])
    else if strcmp_eq name (codes "tport")
    then some (80 ∷ [])
    else none

read_settings-again_example :
    read_settings flash (released build) (read_settings flash build used).1
    ≡ read_settings flash build used
read_settings-again_example =
    read_settings-again flash build used flash-Works (omega arith) (omega arith)
