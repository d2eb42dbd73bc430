-- ===== src/Config.antt =====
-- The configuration file: `read_cfg` of main/fmb630.c, on the lines that `fgets` gives, each with
-- its line end. The conversion of a decimal fraction times 10^7 to 32 bits by way of `float`
-- is a parameter. Bytes of an array behind the string are zero.
pub mod Entries
pub mod Comments
use esp_fmb.Prelude.{
  ℕ, zero, suc, ◌+◌, ◌-◌, ◌*◌, ◌%◌, Bool, true, false, ◌&&◌, not, Option, none, some, List, [], ◌∷◌,
  ◌++◌, ltb, leb, ◌==◌, if◌then◌else◌, length, take, drop, overlay,
}
use esp_fmb.Prelude.Int.{ℤ, pos, negsuc, wrap}
use esp_fmb.Prelude.Text.{codes, starts_with, strstr, strchr, atoi}
use esp_fmb.Scenario.{
  Rumb, park, north, east, south, west, north_east, north_west, south_east, south_west, stop, Ones,
  HdrRec, add_ones,
}

-- `s_conf`.
pub record Conf : Type 0 where
  pub srv : List ℕ
  pub port : ℕ
  pub imei : List ℕ
  pub mode : ℕ
  pub snd_park : ℕ
  pub snd_move : ℕ
  pub wait_ack : ℕ
  pub wait_before_new_connect : ℕ
  pub latitude : ℕ
  pub longitude : ℕ

-- `cname`, as the cases of the `switch`.
pub data Key : Type 0 where
  server imei_key mode_key period_park period_move wait_ack_key wait_before location entry : Key

abbrev pub cname : List (Key × List ℕ)
cname =
    (server, codes "server=")
    ∷ (imei_key, codes "imei=")
    ∷ (mode_key, codes "mode=")
    ∷ (period_park, codes "period_park=")
    ∷ (period_move, codes "period_move=")
    ∷ (wait_ack_key, codes "wait_ack=")
    ∷ (wait_before, codes "wait_before_new_connect=")
    ∷ (location, codes "location=")
    ∷ (entry, codes "#")
    ∷ []

-- `scena`.
abbrev pub scena : List (Rumb × List ℕ)
scena =
    (park, codes "Park")
    ∷ (north, codes "North")
    ∷ (east, codes "East")
    ∷ (south, codes "South")
    ∷ (west, codes "West")
    ∷ (north_east, codes "North-East")
    ∷ (north_west, codes "North-West")
    ∷ (south_east, codes "South-East")
    ∷ (south_west, codes "South-West")
    ∷ (stop, codes "Stop")
    ∷ []

-- What the text behind "#" is: no entry, an entry, or one without its second colon, on which the
-- function goes on with a null pointer.
pub data Entry : Type 0 where
  no_entry bad_pointer : Entry
  entry_of : Ones → Entry

abbrev pub step_of : Rumb → List ℕ → Option (List ℕ × List ℕ) → Entry
step_of dir rest none = bad_pointer
step_of dir rest (some (delta, kols)) =
    entry_of (record { dir = dir; delta = atoi delta; kols = atoi kols })

abbrev pub is_still : Rumb → Bool
is_still park = true
is_still stop = true
is_still dir = false

-- The name is matched as far as the text before the colon goes, and its whole length is skipped.
abbrev pub named_entry : Rumb → List ℕ → List ℕ → Entry
named_entry dir name uks =
    let rest = drop (length name + 1) uks in
    if is_still dir
    then entry_of (record { dir = dir; delta = pos 0; kols = atoi rest })
    else step_of dir rest (strchr rest b':')

unfoldable pub find_entry : List (Rumb × List ℕ) → List ℕ → List ℕ → Entry
find_entry [] tmp uks = no_entry
find_entry ((dir, name) ∷ names) tmp uks =
    if starts_with tmp name then named_entry dir name uks else find_entry names tmp uks

-- The text before the colon, if there is one.
abbrev pub entry_at : List ℕ → Option (List ℕ × List ℕ) → Entry
entry_at uks none = no_entry
entry_at uks (some (tmp, behind)) = find_entry scena tmp uks

unfoldable pub parse_entry : List ℕ → Entry
parse_entry uks = entry_at uks (strchr uks b':')

-- The configuration read so far, the number of keys found, and the list of entries.
pub record Cfg : Type 0 where
  pub cnf : Conf
  pub cnt : ℕ
  pub records : HdrRec

abbrev pub counted : Conf → Cfg → Cfg
counted conf c = record c { cnf = conf; cnt = c.cnt + 1 }

abbrev pub set_server : Option (List ℕ × List ℕ) → Cfg → Cfg
set_server none c = c
set_server (some (addr, port)) c =
    let f = c.cnf in
    counted (record f { port = wrap 65536 (atoi port); srv = overlay (take 255 addr) f.srv }) c

abbrev pub set_location : (List ℕ → ℕ) → Option (List ℕ × List ℕ) → Cfg → Cfg
set_location coord none c = counted c.cnf c
set_location coord (some (lat, lon)) c =
    let f = c.cnf in counted (record f { latitude = coord lat; longitude = coord lon }) c

-- `allocated` says whether `add_ones` gets a node for the list.
abbrev pub set_entry : (HdrRec → Bool) → Entry → Cfg → Option Cfg
set_entry allocated no_entry c = some c
set_entry allocated bad_pointer c = none
set_entry allocated (entry_of one) c =
    some (record c { records = (add_ones (allocated c.records) (some one) c.records).0 })

abbrev pub seconds_of : List ℕ → ℕ
seconds_of uks = wrap 4294967296 (atoi uks)

-- The `switch` on the key, with the text behind it.
unfoldable pub set_key : (List ℕ → ℕ) → (HdrRec → Bool) → Key → List ℕ → Cfg → Option Cfg
set_key coord allocated server uks c = some (set_server (strchr uks b':') c)
set_key coord allocated imei_key uks c =
    let f = c.cnf in some (counted (record f { imei = overlay (take 15 uks) f.imei }) c)
set_key coord allocated mode_key uks c =
    let f = c.cnf in some (counted (record f { mode = wrap 256 (atoi uks) }) c)
set_key coord allocated period_park uks c =
    let f = c.cnf in some (counted (record f { snd_park = seconds_of uks }) c)
set_key coord allocated period_move uks c =
    let f = c.cnf in some (counted (record f { snd_move = seconds_of uks }) c)
set_key coord allocated wait_ack_key uks c =
    let f = c.cnf in some (counted (record f { wait_ack = seconds_of uks }) c)
set_key coord allocated wait_before uks c =
    let f = c.cnf in some (counted (record f { wait_before_new_connect = seconds_of uks }) c)
set_key coord allocated location uks c = some (set_location coord (strchr uks b',') c)
set_key coord allocated entry uks c = set_entry allocated (parse_entry uks) c

-- Every key that stands in the line; `none` is the null pointer.
unfoldable pub read_keys :
    (List ℕ → ℕ) → (HdrRec → Bool) → List (Key × List ℕ) → List ℕ → Option Cfg → Option Cfg
read_keys coord allocated keys buf none = none
read_keys coord allocated [] buf (some c) = some c
read_keys coord allocated ((key, name) ∷ keys) buf (some c) =
    read_keys coord allocated keys buf (elim (strstr buf name) [
      | none ↦ some c
      | some found ↦ set_key coord allocated key (drop (length name) found) c
    ])

abbrev pub is_comment : List ℕ → Bool
is_comment [] = false
is_comment (c ∷ s) = c == b';'

-- The line without its end.
abbrev pub cut_newline : List ℕ → Option (List ℕ × List ℕ) → List ℕ
cut_newline buf none = buf
cut_newline buf (some (before, behind)) = before

unfoldable pub read_line : (List ℕ → ℕ) → (HdrRec → Bool) → List ℕ → Option Cfg → Option Cfg
read_line coord allocated buf c =
    if ltb 5 (length buf) && not (is_comment buf)
    then read_keys coord allocated cname (cut_newline buf (strchr buf b'\n')) c
    else c

unfoldable pub read_lines : (List ℕ → ℕ) → (HdrRec → Bool) → List (List ℕ) → Option Cfg → Option Cfg
read_lines coord allocated [] c = c
read_lines coord allocated (buf ∷ bufs) c =
    read_lines coord allocated bufs (read_line coord allocated buf c)

abbrev pub no_conf : Conf
no_conf = record {
  srv = [];
  port = 0;
  imei = [];
  mode = 0;
  snd_park = 0;
  snd_move = 0;
  wait_ack = 0;
  wait_before_new_connect = 0;
  latitude = 0;
  longitude = 0;
}

-- The result, the configuration that the caller has then, and the entries.
abbrev pub finish_cfg : Conf → Option Cfg → Option (ℤ × Conf × HdrRec)
finish_cfg cf none = none
finish_cfg cf (some c) =
    some (if leb 7 c.cnt then (pos 0, c.cnf, c.records) else (negsuc 0, cf, c.records))

-- `buffers` says whether the three buffers were allocated; no file is no line.
unfoldable pub read_cfg :
    (List ℕ → ℕ)
    → (HdrRec → Bool)
    → Bool
    → List (List ℕ)
    → Conf
    → HdrRec
    → Option (ℤ × Conf × HdrRec)
read_cfg coord allocated buffers lines cf h =
    if buffers
    then finish_cfg cf
        (read_lines coord allocated lines (some (record { cnf = no_conf; cnt = 0; records = h })))
    else some (negsuc 0, cf, h)
