-- ===== src/Control.antt =====
-- The commands of a client of the TLS server: `get_json_str` and `parser_json_str` of
-- main/tls_srv.c, with SNTP and the FTP client switched on and UDP switched off, as main/hdr.h has
-- it. What cJSON reads from the message is a parameter: the item of each name. An array field holds
-- the bytes of the array before its first zero; `save_param` is a list of what was saved.

pub mod Access
pub mod Kept
pub mod Answer
pub mod Serve
use Prim.Native.String.{String}
use esp_fmb.Prelude.{
  ℕ, zero, suc, ◌+◌, ◌-◌, ◌*◌, ◌/◌, ◌%◌, Bool, true, false, ◌&&◌, not, Option, none, some, List, [],
  ◌∷◌, ◌++◌, ltb, leb, ◌==◌, if◌then◌else◌, length, take,
}
use esp_fmb.Prelude.Int.{ℤ, pos, negsuc, wrap}
use esp_fmb.Settings.{cleared}
use esp_fmb.Prelude.Text.{codes, strchr, atoi}

-- `i_ctrl_t`.
pub data Ctrl : Type 0 where
  auth udp sntp sntp_srv time_zone restart time ftp_go ftp_srv ftp_user get : Ctrl

-- `CtrlName`, with the number of each.
abbrev pub ctrl_name : List (Ctrl × ℕ × List ℕ)
ctrl_name =
    (auth, 0, codes "auth")
    ∷ (udp, 1, codes "udp")
    ∷ (sntp, 2, codes "sntp")
    ∷ (sntp_srv, 3, codes "sntp_srv")
    ∷ (time_zone, 4, codes "time_zone")
    ∷ (restart, 5, codes "restart")
    ∷ (time, 6, codes "time")
    ∷ (ftp_go, 7, codes "ftp_go")
    ∷ (ftp_srv, 8, codes "ftp_srv")
    ∷ (ftp_user, 9, codes "ftp_user")
    ∷ (get, 10, codes "get")
    ∷ []

-- `SubCtrlName`.
abbrev pub sub_ctrl_name : List (List ℕ)
sub_ctrl_name =
    codes "status"
    ∷ codes "wifi"
    ∷ codes "sntp_srv"
    ∷ codes "time_zone"
    ∷ codes "ftp_srv"
    ∷ codes "ftp_user"
    ∷ codes "log_port"
    ∷ codes "version"
    ∷ codes "gps_srv"
    ∷ codes "gps_info"
    ∷ []

-- An item of the object: a number, a string as `cJSON_Print` prints it, or another value.
pub data Item : Type 0 where
  number : ℤ → Item
  string : Option (List ℕ) → Item
  other : Item

-- The variables that the commands change; `clock` is the last time that the clock was set to.
pub record Panel : Type 0 where
  pub sntp_go : ℕ
  pub work_sntp : List ℕ
  pub time_zone : List ℕ
  pub clock : Option ℤ
  pub to_sd : Bool
  pub ftp_go_flag : ℕ
  pub ftp_srv_port : ℕ
  pub ftp_srv_addr : List ℕ
  pub ftp_srv_login : List ℕ
  pub ftp_srv_passwd : List ℕ
  pub saved : List (List ℕ × List ℕ)

-- The variables of the loop: `*au`, `*rst`, whether `yes` is 0, and `subc`.
pub record Scan : Type 0 where
  pub au : ℕ
  pub rst : ℕ
  pub yes : Bool
  pub subc : ℕ
  pub panel : Panel

-- `!strcmp(s, t)`.
abbrev pub strcmp_eq : List ℕ → List ℕ → Bool
strcmp_eq [] [] = true
strcmp_eq [] (d ∷ t) = false
strcmp_eq (c ∷ s) [] = false
strcmp_eq (c ∷ s) (d ∷ t) = (c == d) && strcmp_eq s t

-- The printed string without its quotes.
unfoldable pub get_json_str : List ℕ → List ℕ
get_json_str [] = []
get_json_str (c ∷ s) = if c == b'"' then take (length s - 1) s else c ∷ s

abbrev pub accept : Panel → Scan → Scan
accept p s = record s { yes = true; panel = p }

-- `save_param` of a buffer of `len` bytes.
abbrev pub save : String → ℕ → List ℕ → Panel → Panel
save name len value p = record p { saved = (codes name, cleared len value) ∷ p.saved }

-- A command with a string value: `body` is what it does for a client that is let in.
abbrev pub with_string : (List ℕ → Scan → Scan) → Option (List ℕ) → Scan → Scan × Bool
with_string body none s = (s, false)
with_string body (some val) s = (if s.au == 0 then s else body val s, true)

abbrev pub set_sntp : List ℕ → Scan → Scan
set_sntp val s =
    let p = s.panel in if strcmp_eq val (codes "on") then accept (record p { sntp_go = 1 }) s else s

abbrev pub set_sntp_srv : List ℕ → Scan → Scan
set_sntp_srv val s =
    let p = s.panel in
    let name = take 31 val in
    accept (save "sntp" 32 name (record p { work_sntp = name; sntp_go = 1 })) s

abbrev pub set_time_zone : List ℕ → Scan → Scan
set_time_zone val s =
    let p = s.panel in
    if not (strcmp_eq val p.time_zone) && (ltb (length val) 32 && ltb 0 (length val))
    then accept (save "tzone" 32 val (record p { time_zone = val; sntp_go = 1 })) s
    else accept p s

abbrev pub set_ftp_go : List ℕ → Scan → Scan
set_ftp_go val s =
    let p = s.panel in
    if strcmp_eq val (codes "flash")
    then accept (record p { to_sd = false; ftp_go_flag = 1 }) s
    else (if strcmp_eq val (codes "card")
        then accept (record p { to_sd = true; ftp_go_flag = 1 }) s
        else s)

-- The address and the port behind the colon; without one the port is 9221.
abbrev pub srv_parts : List ℕ → List ℕ × ℕ
srv_parts val = elim (strchr val b':') [
  | none ↦ (val, 9221)
  | some (addr, port) ↦ (addr, wrap 65536 (atoi port))
]

abbrev pub set_ftp_srv : List ℕ → Scan → Scan
set_ftp_srv val s =
    let p = s.panel in
    let (addr, port) = srv_parts val in
    let p' = record p { ftp_srv_port = port; ftp_srv_addr = take 16 addr } in
    if ltb 0 (length val)
    then accept (save "ftpprt" 2 (port % 256 ∷ port / 256 ∷ []) (save "ftpip" 16 (take 16 addr) p'))
        s
    else s

-- The whole value is copied to the login.
abbrev pub set_ftp_user : List ℕ → Scan → Scan
set_ftp_user val s =
    let p = s.panel in
    elim (strchr val b':') [
      | none ↦ s
      | some (login, passwd) ↦
          let p' = record p { ftp_srv_login = take 16 val; ftp_srv_passwd = take 16 passwd } in
          accept (save "9999" 16 (take 16 passwd) (save "test" 16 (take 16 val) p')) s
    ]

-- `atoi` of the string, or the number.
abbrev pub set_time : Option (List ℕ) → ℤ → Scan → Scan
set_time val val_bin s =
    let p = s.panel in
    elim (elim val as (λ _. ℤ) [ none ↦ val_bin | some v ↦ atoi v ]) [
      | pos zero ↦ s
      | pos (suc k) ↦ accept (record p { clock = some (pos (suc k)) }) s
      | negsuc n ↦ s
    ]

-- The index of the first name that is equal to the value.
abbrev pub sub_index : ℕ → List (List ℕ) → List ℕ → Option ℕ
sub_index k [] val = none
sub_index k (name ∷ names) val = if strcmp_eq val name then some k else sub_index (k + 1) names val

abbrev pub ask : List ℕ → Scan → Scan
ask val s = elim (sub_index 0 sub_ctrl_name val) [
  | none ↦ s
  | some k ↦ record s { yes = true; subc = k }
]

abbrev pub check_auth : List ℕ → Option (List ℕ) → Scan → Scan × Bool
check_auth str_md5 none s = (s, false)
check_auth str_md5 (some val) s =
    (if strcmp_eq val str_md5 then record s { yes = true; au = 1 } else s, true)

-- `rcpu` is 0 when the command is reached.
abbrev pub do_restart : Option (List ℕ) → Scan → Scan × Bool
do_restart none s = (s, false)
do_restart (some val) s = (
  if not (s.au == 0) && strcmp_eq val (codes "on")
      then record s { yes = true; rst = 1 }
      else record s { rst = 0 },
  true,
)

abbrev pub deny : Scan × Bool → Scan × Bool
deny (s, done) = (if s.au == 0 then record s { yes = false } else s, done)

-- The `switch` on the command; the second part is `done`.
unfoldable pub control : List ℕ → Ctrl → Option (List ℕ) → ℤ → Scan → Scan × Bool
control str_md5 auth val val_bin s = check_auth str_md5 val s
control str_md5 udp val val_bin s = (s, false)
control str_md5 sntp val val_bin s = with_string set_sntp val s
control str_md5 sntp_srv val val_bin s = with_string set_sntp_srv val s
control str_md5 time_zone val val_bin s = with_string set_time_zone val s
control str_md5 restart val val_bin s = do_restart val s
control str_md5 time val val_bin s = (if s.au == 0 then s else set_time val val_bin s, true)
control str_md5 ftp_go val val_bin s = with_string set_ftp_go val s
control str_md5 ftp_srv val val_bin s = deny (with_string set_ftp_srv val s)
control str_md5 ftp_user val val_bin s = deny (with_string set_ftp_user val s)
control str_md5 get val val_bin s = with_string ask val s

-- An item with a value is handled; -1 as a number is no value.
unfoldable pub handle : List ℕ → Ctrl → Item → Scan → Scan × Bool
handle str_md5 c (number (pos n)) s = control str_md5 c none (pos n) s
handle str_md5 c (number (negsuc zero)) s = (s, false)
handle str_md5 c (number (negsuc (suc n))) s = control str_md5 c none (negsuc (suc n)) s
handle str_md5 c (string none) s = (s, false)
handle str_md5 c (string (some printed)) s =
    control str_md5 c (some (get_json_str printed)) (negsuc 0) s
handle str_md5 c other s = (s, false)

-- The loop over the names, until one is done; with the number of the last name found.
unfoldable pub scan_names :
    List ℕ → (List ℕ → Option Item) → List (Ctrl × ℕ × List ℕ) → ℕ → Scan → Scan × ℕ
scan_names str_md5 obj [] ind_c s = (s, ind_c)
scan_names str_md5 obj ((c, i, name) ∷ names) ind_c s = elim (obj name) [
  | none ↦ scan_names str_md5 obj names ind_c s
  | some item ↦
      let (s', done) = handle str_md5 c item s in
      let rest = scan_names str_md5 obj names i s' in if done then (s', i) else rest
]

-- `none` is a message that cJSON does not parse. The result is -1, or the number of the command
-- with that of the part asked for above it.
unfoldable pub parser_json_str : List ℕ → Option (List ℕ → Option Item) → ℕ → ℕ → Panel → Scan × ℤ
parser_json_str str_md5 obj au rst p =
    let start : Scan = record { au = au; rst = rst; yes = false; subc = 0; panel = p } in
    elim obj as (λ _. Scan × ℤ) [
      | none ↦ (start, negsuc 0)
      | some items ↦
          let (s, ind_c) = scan_names str_md5 items ctrl_name 255 start in
          (s, (if s.yes then pos (ind_c + s.subc * 65536) else negsuc 0))
    ]
