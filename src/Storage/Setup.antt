-- ===== src/Storage/Setup.antt =====
-- How `app_main` of main/main.c finds its configuration: the card and the flash disk are mounted, the
-- file of the card is copied to a disk without one, and the card, the disk and the built-in values are
-- tried in this order. `fgets` on a file is a parameter, and so is what `read_cfg` takes as one.
pub mod Laws
use esp_fmb.Prelude.{
  ℕ, zero, suc, Bool, true, false, Option, none, some, List, [], ◌∷◌, if◌then◌else◌,
}
use esp_fmb.Prelude.Int.{ℤ, pos, negsuc}
use esp_fmb.Prelude.Text.{codes, cut_at}
use esp_fmb.Scenario.{HdrRec}
use esp_fmb.Config.{Conf, no_conf, read_cfg}
use esp_fmb.Storage.{Files, sd_conf, find_file, unlink, print_dir, FileRun, rd_file, wr_file}

-- What a start meets: the mounts, the directories, the copying, the pin that keeps the file of the disk
-- (true when released), and the memory of `read_cfg`.
pub record Start : Type 0 where
  pub card_mount : Bool
  pub disk_mount : Bool
  pub card_listed : Bool
  pub disk_listed : Bool
  pub reading : FileRun
  pub writing : FileRun
  pub delit : Bool
  pub card_buffers : Bool
  pub disk_buffers : Bool

-- `txtConf`.
abbrev pub if_present : Bool → Start → Files → Option (List ℕ)
if_present true s card = (rd_file true s.reading sd_conf card).0
if_present false s card = none

abbrev pub card_text : Bool → Start → Files → Option (List ℕ)
card_text true s card = if_present (print_dir s.card_listed card) s card
card_text false s card = none

-- The string in the buffer is what is written.
abbrev pub copy_unless : Bool → Option (List ℕ) → Start → Files → Files
copy_unless true text s disk = disk
copy_unless false none s disk = disk
copy_unless false (some text) s disk = (wr_file true s.writing sd_conf (cut_at 0 text).0 disk).1

abbrev pub if_kept : Bool → Option (List ℕ) → Start → Files → Files
if_kept true text s disk = copy_unless (print_dir s.disk_listed disk) text s disk
if_kept false text s disk = unlink sd_conf disk

abbrev pub disk_files : Bool → Option (List ℕ) → Start → Files → Files
disk_files true text s disk = if_kept s.delit text s disk
disk_files false text s disk = disk

unfoldable pub copy_conf : Start → Files → Files → Files
copy_conf s card disk = disk_files s.disk_mount (card_text s.card_mount s card) s disk

-- The error code, the configuration and the entries of the scenario.
abbrev pub Read : Type 0
Read = ℤ × Conf × HdrRec

module _ (fgets : List ℕ → List (List ℕ)) (coord : List ℕ → ℕ) (allocated : HdrRec → Bool) where
  abbrev pub lines : Option (List ℕ) → List (List ℕ)
  lines none = []
  lines (some text) = fgets text

  -- A volume is tried when it is mounted and there is an error so far.
  abbrev pub attempt : Bool → Bool → Files → Option Read → Option Read
  attempt mounted buffers fs none = none
  attempt false buffers fs (some r) = some r
  attempt true buffers fs (some (pos zero, cf, h)) = some (pos zero, cf, h)
  attempt true buffers fs (some (pos (suc n), cf, h)) =
      read_cfg coord allocated buffers (lines (find_file sd_conf fs)) cf h
  attempt true buffers fs (some (negsuc n, cf, h)) =
      read_cfg coord allocated buffers (lines (find_file sd_conf fs)) cf h

  abbrev pub built_in : Conf
  built_in = record {
    srv = codes "92.53.65.4";
    port = 9900;
    imei = codes "351580051430040";
    mode = 0;
    snd_park = 30;
    snd_move = 10;
    wait_ack = 15;
    wait_before_new_connect = 10;
    latitude = coord (codes "55.803893");
    longitude = coord (codes "37.403016");
  }

  abbrev pub or_built_in : Option Read → Option (Conf × HdrRec)
  or_built_in none = none
  or_built_in (some (pos zero, cf, h)) = some (cf, h)
  or_built_in (some (pos (suc n), cf, h)) = some (built_in, h)
  or_built_in (some (negsuc n, cf, h)) = some (built_in, h)

  unfoldable pub choose_conf : Start → Files → Files → HdrRec → Option (Conf × HdrRec)
  choose_conf s card disk h = or_built_in (
      attempt s.disk_mount s.disk_buffers disk
        (attempt s.card_mount s.card_buffers card (some (pos 1, no_conf, h))))

  -- The files of the disk afterwards, and the configuration.
  unfoldable pub set_up_conf : Start → Files → Files → HdrRec → Files × Option (Conf × HdrRec)
  set_up_conf s card disk h =
      let after = copy_conf s card disk in (after, choose_conf s card after h)
