-- ===== src/Tests/Storage.antt =====
-- A card with a configuration file, and a start without it.
use esp_fmb.Prelude.{true, false, ◌≡◌, refl, arith, some, List, ℕ, [], ◌∷◌, ◌==◌}
use esp_fmb.Prelude.Int.{pos}
use esp_fmb.Prelude.Text.{codes, strstr, strchr, atoi}
use esp_fmb.Scenario.{no_records}
use esp_fmb.Config.{Conf, no_conf, read_cfg, read_lines, read_line, read_keys, set_key}
use esp_fmb.Storage.{FileRun, Files, put_file, sd_conf, any_conf}
use esp_fmb.Storage.Setup.{Start, set_up_conf}
use esp_fmb.Storage.Setup.Laws.{set_up_conf-copied}

-- The text line by line, each line with its end.
abbrev to_line : ℕ → List (List ℕ) → List (List ℕ)
to_line c [] = (c ∷ []) ∷ []
to_line c (l ∷ ls) = (c ∷ l) ∷ ls

abbrev lines_of : List ℕ → List (List ℕ)
lines_of [] = []
lines_of (c ∷ s) = elim (c == b'\n') [
  | true ↦ (c ∷ []) ∷ lines_of s
  | false ↦ to_line c (lines_of s)
]

abbrev conf_text : List ℕ
conf_text =
    codes
      "server=1.2.3.4:99\nimei=123\nmode=1\nperiod_park=30\nperiod_move=10\nwait_ack=5\nwait_before_new_connect=3\n"

abbrev whole : FileRun
whole = record { alloc_ok = true; open_ok = true; count = 4096 }

abbrev with_card : Start
with_card = record {
  card_mount = true;
  disk_mount = true;
  card_listed = true;
  disk_listed = true;
  reading = whole;
  writing = whole;
  delit = true;
  card_buffers = true;
  disk_buffers = true;
}

abbrev card_files : Files
card_files = (codes "readme.txt", codes "x") ∷ (codes "CONF.TXT", conf_text) ∷ []

abbrev disk_files : Files
disk_files = (codes "log", []) ∷ []

abbrev conf_read : Conf
conf_read = record no_conf {
  srv = codes "1.2.3.4";
  port = 99;
  imei = codes "123";
  mode = 1;
  snd_park = 30;
  snd_move = 10;
  wait_ack = 5;
  wait_before_new_connect = 3;
}

conf_text-read :
    read_cfg (λ s. 0) (λ h. true) true (lines_of conf_text) no_conf no_records
    ≡ some (pos 0, conf_read, no_records)
unfolding read_cfg read_lines read_line read_keys set_key strstr strchr atoi
conf_text-read = refl

no_conf_file : any_conf disk_files ≡ false
unfolding strstr
no_conf_file = refl

set_up_conf-copied_example :
    (set_up_conf lines_of (λ s. 0) (λ h. true) with_card card_files disk_files no_records
      ≡ (put_file sd_conf conf_text disk_files, some (conf_read, no_records)))
    × (set_up_conf lines_of
          (λ s. 0)
          (λ h. true)
          (record with_card { card_mount = false })
          []
          (put_file sd_conf conf_text disk_files)
          no_records
        ≡ (put_file sd_conf conf_text disk_files, some (conf_read, no_records)))
set_up_conf-copied_example =
    set_up_conf-copied lines_of (λ s. 0) (λ h. true) with_card
      (record with_card { card_mount = false }) card_files [] disk_files conf_text conf_read
      no_records no_records refl (omega arith) (omega arith) (ground arith) no_conf_file
      (refl, refl, refl, refl, refl, (refl, refl, omega arith), (refl, refl, omega arith))
      (refl, refl, refl) refl conf_text-read
