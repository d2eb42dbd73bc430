-- ===== src/Storage.antt =====
-- The volumes that hold the configuration file: `print_dir`, `rdFile` and `wrFile` of main/main.c, and
-- the lookup of files by the file system, which ignores case.
pub mod Laws
pub mod Setup
use esp_fmb.Prelude.{
  ℕ, zero, suc, ◌+◌, ◌-◌, Bool, true, false, ◌&&◌, ◌||◌, Option, none, some, List, [], ◌∷◌, leb,
  map, length, take, if◌then◌else◌,
}
use esp_fmb.Prelude.Int.{ℤ, pos, negsuc}
use esp_fmb.Prelude.Text.{codes, strstr}
use esp_fmb.Control.{strcmp_eq}

-- The files of a volume, by their names.
abbrev pub Files : Type 0
Files = List (List ℕ × List ℕ)

abbrev pub sd_conf : List ℕ
sd_conf = codes "conf.txt"

abbrev pub len2k : ℕ
len2k = 2048

abbrev pub lower : ℕ → ℕ
lower c = if leb b'A' c && leb c b'Z' then c + 32 else c

abbrev pub same_name : List ℕ → List ℕ → Bool
same_name a b = strcmp_eq (map lower a) (map lower b)

abbrev pub find_file : List ℕ → Files → Option (List ℕ)
find_file name [] = none
find_file name ((other, text) ∷ fs) = if same_name other name then some text else find_file name fs

-- A file that is written anew keeps its name.
abbrev pub put_file : List ℕ → List ℕ → Files → Files
put_file name text [] = (name, text) ∷ []
put_file name text ((other, old) ∷ fs) =
    if same_name other name then (other, text) ∷ fs else (other, old) ∷ put_file name text fs

abbrev pub unlink : List ℕ → Files → Files
unlink name [] = []
unlink name ((other, old) ∷ fs) = if same_name other name then fs else (other, old) ∷ unlink name fs

abbrev pub is_some : Option (List ℕ) → Bool
is_some none = false
is_some (some s) = true

abbrev pub strcasestr : List ℕ → List ℕ → Bool
strcasestr s p = is_some (strstr (map lower s) (map lower p))

abbrev pub any_conf : Files → Bool
any_conf [] = false
any_conf ((name, text) ∷ fs) = strcasestr name sd_conf || any_conf fs

-- `listed` says whether the directory and the memory for a name are there.
unfoldable pub print_dir : Bool → Files → Bool
print_dir listed fs = listed && any_conf fs

-- What a call on a file meets: memory, an open file, and how many bytes are moved at most.
pub record FileRun : Type 0 where
  pub alloc_ok : Bool
  pub open_ok : Bool
  pub count : ℕ

abbrev pub opened : Bool → ℕ → List ℕ → Option (List ℕ) × ℕ
opened true count text = let s = take count text in (some s, length s)
opened false count text = (none, 0)

abbrev pub allocated : Bool → FileRun → List ℕ → Option (List ℕ) × ℕ
allocated true r text = opened r.open_ok r.count text
allocated false r text = (none, 0)

abbrev pub sized : ℕ → FileRun → List ℕ → Option (List ℕ) × ℕ
sized zero r text = (none, 0)
sized (suc n) r text = allocated r.alloc_ok r (take (len2k - 1) text)

-- The buffer, up to the zeros behind what was read, and the number of bytes read. A file that is not
-- there cannot be opened, whatever size was found.
abbrev pub if_mounted : Bool → FileRun → Option (List ℕ) → Option (List ℕ) × ℕ
if_mounted true r none = (none, 0)
if_mounted true r (some text) = sized (length text) r text
if_mounted false r file = (none, 0)

unfoldable pub rd_file : Bool → FileRun → List ℕ → Files → Option (List ℕ) × ℕ
rd_file mnt r name fs = if_mounted mnt r (find_file name fs)

abbrev pub write_opened : Bool → ℕ → List ℕ → List ℕ → Files → ℤ × Files
write_opened true count name buf fs = let s = take count buf in (pos (length s), put_file name s fs)
write_opened false count name buf fs = (negsuc 0, fs)

unfoldable pub wr_file : Bool → FileRun → List ℕ → List ℕ → Files → ℤ × Files
wr_file mnt r name buf fs = write_opened (mnt && r.open_ok) r.count name buf fs
