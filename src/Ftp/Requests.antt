-- ===== src/Ftp/Requests.antt =====
-- The commands of main/ftp_cli.c that need no data connection. A string is given without its 0; a
-- result is none where a line of the reply went behind its buffer.
use esp_fmb.Prelude.{
  ℕ, zero, suc, ◌+◌, ◌-◌, Bool, true, false, ◌||◌, ◌&&◌, Option, none, some, List, [], ◌∷◌, ◌++◌,
  leb, ◌==◌, if◌then◌else◌, length, get_or, take, drop, replicate,
}
use esp_fmb.Prelude.Text.{codes, strchr, cut_at}
use esp_fmb.Ftp.Buf.{control, reading, writing, Dir, Ctl, temp_size}
use esp_fmb.Ftp.Reply.{send_command, fits_or_not}

-- A command with an argument, which `extra` bytes more than the argument must have room for.
abbrev pub request : ℕ → List ℕ → List ℕ → ℕ → Ctl → Option (Bool × Ctl)
request extra word arg ch c =
    fits_or_not (leb (length arg + extra) temp_size) (send_command (word ++ arg) ch c) c

unfoldable pub site : List ℕ → Ctl → Option (Bool × Ctl)
site cmd c = request 7 (codes "SITE ") cmd b'2' c

unfoldable pub change_dir : List ℕ → Ctl → Option (Bool × Ctl)
change_dir path c = request 6 (codes "CWD ") path b'2' c

unfoldable pub make_dir : List ℕ → Ctl → Option (Bool × Ctl)
make_dir path c = request 6 (codes "MKD ") path b'2' c

unfoldable pub remove_dir : List ℕ → Ctl → Option (Bool × Ctl)
remove_dir path c = request 6 (codes "RMD ") path b'2' c

unfoldable pub change_dir_up : Ctl → Option (Bool × Ctl)
change_dir_up c = send_command (codes "CDUP") b'2' c

unfoldable pub delete_data : List ℕ → Ctl → Option (Bool × Ctl)
delete_data name c = request 7 (codes "DELE ") name b'2' c

-- Two commands: the second only after the first.
abbrev pub after_yes : (Ctl → Option (Bool × Ctl)) → Option (Bool × Ctl) → Option (Bool × Ctl)
after_yes k none = none
after_yes k (some (false, c)) = some (false, c)
after_yes k (some (true, c)) = k c

unfoldable pub rename : List ℕ → List ℕ → Ctl → Option (Bool × Ctl)
rename src dst c =
    let second = λ (d : Ctl). send_command (codes "RNTO " ++ dst) b'2' d in
    let both = after_yes second (send_command (codes "RNFR " ++ src) b'3' c) in
    fits_or_not (leb (length src + 7) temp_size)
      (fits_or_not (leb (length dst + 7) temp_size) both c) c

-- A refused user name may still be a login, if the answer begins with 2.
abbrev pub after_user : List ℕ → Option (Bool × Ctl) → Option (Bool × Ctl)
after_user pass none = none
after_user pass (some (false, c)) = some (get_or c.response 0 0 == b'2', c)
after_user pass (some (true, c)) = send_command (codes "PASS " ++ pass) b'2' c

unfoldable pub login : List ℕ → List ℕ → Ctl → Option (Bool × Ctl)
login user pass c =
    let both = after_user pass (send_command (codes "USER " ++ user) b'3' c) in
    fits_or_not (leb (length user + 7) 64) (fits_or_not (leb (length pass + 7) 64) both c) c

-- What the command writes for its caller, with the result.
abbrev pub Text : Type 0
Text = Option (Bool × List ℕ × Ctl)

abbrev pub with_text : (List ℕ → Option (List ℕ)) → Option (Bool × Ctl) → Text
with_text f none = none
with_text f (some (false, c)) = some (false, [], c)
with_text f (some (true, c)) = elim (f c.response) [
  | none ↦ some (false, [], c)
  | some s ↦ some (true, s, c)
]

-- `while ((--l) && (*s != ' '))`, for a buffer of at least one byte.
abbrev pub copy_word : ℕ → List ℕ → List ℕ
copy_word zero s = 0 ∷ []
copy_word (suc l) [] = 0 ∷ []
copy_word (suc l) (c ∷ s) = let rest = copy_word l s in if c == 32 then 0 ∷ [] else c ∷ rest

unfoldable pub sys_type : ℕ → Ctl → Text
sys_type max c =
    with_text (λ r. some (copy_word (max - 1) (drop 4 r))) (send_command (codes "SYST") b'2' c)

-- `while ((--l) && (*s) && (*s != '"'))`.
abbrev pub copy_quoted : ℕ → List ℕ → List ℕ
copy_quoted zero s = 0 ∷ []
copy_quoted (suc l) [] = 0 ∷ []
copy_quoted (suc l) (c ∷ s) =
    let rest = copy_quoted l s in if (c == 0) || (c == b'"') then 0 ∷ [] else c ∷ rest

abbrev pub behind_quote : ℕ → Option (List ℕ × List ℕ) → Option (List ℕ)
behind_quote max none = none
behind_quote max (some (before, behind)) = some (copy_quoted (max - 1) behind)

unfoldable pub pwd : ℕ → Ctl → Text
pwd max c =
    with_text (λ r. behind_quote max (strchr (cut_at 0 r).0 b'"'))
      (send_command (codes "PWD") b'2' c)

-- `strncpy`: the string, cut or filled with 0.
abbrev pub strncpy : ℕ → List ℕ → List ℕ
strncpy n s = let t = take n (cut_at 0 s).0 in t ++ replicate (n - length t) 0

unfoldable pub mod_date : List ℕ → ℕ → Ctl → Text
mod_date path max c =
    let r =
      with_text (λ s. some (strncpy max (drop 4 s)))
        (send_command (codes "MDTM " ++ path) b'2' c) in
    if leb (length path + 7) temp_size then r else some (false, [], c)

-- `sscanf` with `%d %u` for a reply gives the second number, if there are two.
module _ (sscanf_du : List ℕ → Option ℕ) where
  abbrev pub with_size : Option (Bool × Ctl) → Option (Option ℕ × Ctl)
  with_size none = none
  with_size (some (false, c)) = some (none, c)
  with_size (some (true, c)) = some (sscanf_du c.response, c)

  unfoldable pub file_size : List ℕ → ℕ → Ctl → Option (Option ℕ × Ctl)
  file_size path mode c =
      let second = λ (d : Ctl). send_command (codes "SIZE " ++ path) b'2' d in
      let both = after_yes second (send_command (codes "TYPE " ++ mode ∷ []) b'2' c) in
      if leb (length path + 7) temp_size then with_size both else some (none, c)

-- `FTP_CLIENT_CONNMODE` is 1, with the values 1 and 2; the options 2 to 5 are those of the callback.
unfoldable pub set_options : ℕ → ℕ → Ctl → Bool × Ctl
set_options opt val c =
    if opt == 1
    then (if val == 1
        then (true, record c { passive = true })
        else (if val == 2 then (true, record c { passive = false }) else (false, c)))
    else (leb 2 opt && leb opt 5, c)

abbrev pub response_if : Dir → List ℕ → Option (List ℕ)
response_if control r = some r
response_if reading r = none
response_if writing r = none

-- For a connection that is there.
unfoldable pub last_response : Ctl → Option (List ℕ)
last_response c = response_if c.buf.dir c.response
