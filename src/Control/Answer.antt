-- ===== src/Control/Answer.antt =====
-- `mk_hash` and the texts that `tls_task` of main/tls_srv.c answers with. MD5, which `SET_MD5` of main/tls_srv.h chooses, the printing of
-- fractions and the version of the build are parameters.
pub mod Hash
pub mod Bounds
use esp_fmb.Prelude.{
  ℕ, zero, suc, ◌+◌, ◌-◌, ◌*◌, ◌/◌, ◌%◌, ◌^◌, Bool, true, false, Option, none, some, List, [], ◌∷◌,
  ◌++◌, leb, ◌==◌, length, take, overlay, replicate, get_or, if◌then◌else◌,
}
use esp_fmb.Prelude.Text.{codes, cut_at, print_u, print_d, print_02x}
use esp_fmb.Prelude.Words.{htons}
use esp_fmb.Mirror.{GsmInfo}
use esp_fmb.Control.{sub_ctrl_name}
use esp_fmb.Control.Serve.{Reply, time_stamp, status, refusal, part}

abbrev pub instr : List ℕ
instr = codes "alarm"

-- `%02X` of every byte.
unfoldable pub hex : List ℕ → List ℕ
hex [] = []
hex (c ∷ s) = print_02x c ++ hex s

abbrev pub hash_input : List ℕ → ℕ → List ℕ
hash_input word time = word ++ b'_' ∷ (print_u time ++ b'_' ∷ word)

-- The text of the hash, and the time, which is 0 without memory.
unfoldable pub mk_hash : (List ℕ → List ℕ) → Bool → ℕ → List ℕ → List ℕ × ℕ
mk_hash md5 true time word = (hex (md5 (hash_input word time)), time)
mk_hash md5 false time word = ([], 0)

-- What the answers show. `vcc`, `temp`, `lat` and `long` are the printed fractions, `stored` is what
-- `read_param` gives for a name and a length, and `stale` the buffer `ts` of an earlier answer.
pub record Figures : Type 0 where
  pub ts : ℕ
  pub cli_id : ℕ
  pub time : ℕ
  pub free_mem : ℕ
  pub vcc : List ℕ
  pub temp : List ℕ
  pub stored : List ℕ → ℕ → Option (List ℕ)
  pub stale : List ℕ
  pub net_log_port : ℕ
  pub version : List ℕ
  pub gps_srv : List ℕ
  pub gps_port : ℕ
  pub lat : List ℕ
  pub long : List ℕ
  pub gsm : GsmInfo

abbrev pub it_none : List ℕ
it_none = codes "???"

abbrev pub end_oj : List ℕ
end_oj = codes "}\r\n"

abbrev pub quoted : List ℕ → List ℕ
quoted s = b'"' ∷ (s ++ codes "\"")

-- `,"name":`.
abbrev pub key : ℕ → List ℕ
key sub = b',' ∷ (quoted (get_or sub_ctrl_name sub []) ++ codes ":")

-- `%08X`.
abbrev pub print_08x : ℕ → List ℕ
print_08x n = hex (n / 2 ^ 24 % 256 ∷ n / 2 ^ 16 % 256 ∷ n / 2 ^ 8 % 256 ∷ n % 256 ∷ [])

-- The string that `ts` holds then.
abbrev pub or_none : List ℕ → Option (List ℕ) → List ℕ
or_none old none = it_none
or_none old (some blob) = (cut_at 0 (overlay blob old)).0

abbrev pub param_text : Figures → List ℕ → ℕ → List ℕ
param_text i name len = or_none (replicate 64 0) (i.stored name len)

-- `prt`, of two bytes.
abbrev pub port_of : Option (List ℕ) → ℕ
port_of none = 0
port_of (some blob) = get_or blob 0 0 % 256 + 256 * (get_or blob 1 0 % 256)

abbrev pub head_text : Figures → List (List ℕ)
head_text i =
    codes "{\"DevID\":\""
    ∷ print_08x i.cli_id
    ∷ codes "\",\"Time\":"
    ∷ print_u i.time
    ∷ codes ",\"FreeMem\":"
    ∷ print_u i.free_mem
    ∷ codes ",\"Vcc\":"
    ∷ i.vcc
    ∷ codes ",\"Temp\":"
    ∷ i.temp
    ∷ []

-- `(short)` of 16 bits, for `%d`.
abbrev pub short_text : ℕ → List ℕ
short_text n = if leb 32768 n then b'-' ∷ print_u (65536 - n) else print_u n

abbrev pub gps_text : Figures → List (List ℕ)
gps_text i =
    codes "{\"lat\":"
    ∷ i.lat
    ∷ codes ",\"long\":"
    ∷ i.long
    ∷ codes ",\"alt\":"
    ∷ short_text (htons i.gsm.altitude)
    ∷ codes ",\"angle\":"
    ∷ print_u (htons i.gsm.angle)
    ∷ codes ",\"sat\":"
    ∷ print_u i.gsm.sattelites
    ∷ codes ",\"speed\":"
    ∷ print_u (htons i.gsm.speed)
    ∷ codes "}"
    ∷ []

-- The part asked for, by its number in `SubCtrlName`. The other numbers add nothing.
abbrev pub sub_text : Figures → ℕ → List (List ℕ)
sub_text i n =
    if n == 1
    then key 1
      ∷ quoted (param_text i (codes "ssid") 32 ++ b':' ∷ param_text i (codes "key") 32)
      ∷ []
    else if n == 2
    then key 2 ∷ quoted (param_text i (codes "sntp") 32) ∷ []
    else if n == 3
    then key 3 ∷ quoted (or_none i.stale (i.stored (codes "tzone") 32)) ∷ []
    else if n == 4
    then key 4
      ∷ quoted (
          param_text i (codes "ftpip") 16 ++ b':' ∷ print_u (port_of (i.stored (codes "ftpprt") 2)))
      ∷ []
    else if n == 5
    then key 5
      ∷ quoted (param_text i (codes "test") 16 ++ b':' ∷ param_text i (codes "9999") 16)
      ∷ []
    else if n == 6
    then key 6 ∷ print_u i.net_log_port ∷ []
    else if n == 7
    then key 7 ∷ quoted i.version ∷ []
    else if n == 8
    then key 8 ∷ quoted (i.gps_srv ++ b':' ∷ print_u i.gps_port) ∷ []
    else if n == 9
    then key 9 ∷ gps_text i
    else []

abbrev pub part_text : Figures → Option ℕ → List (List ℕ)
part_text i none = []
part_text i (some n) = sub_text i n

abbrev pub join : List (List ℕ) → List ℕ
join [] = []
join (s ∷ ss) = s ++ join ss

-- What is written for an answer.
unfoldable pub reply_text : Figures → Reply → List ℕ
reply_text i time_stamp = codes "{\"ts\":" ++ print_u i.ts ++ end_oj
reply_text i status = join (head_text i) ++ end_oj
reply_text i (part sub) = join (head_text i) ++ (join (part_text i sub) ++ end_oj)
reply_text i refusal = codes "{\"status\":\"You are NOT auth. client, bye\"}\r\n"
