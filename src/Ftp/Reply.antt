-- ===== src/Ftp/Reply.antt =====
-- `readResponse` and `sendCommand` of main/ftp_cli.c. None is a `readLine` that wrote behind its
-- buffer.
pub mod Laws
pub mod Stream
pub mod Wire
pub mod Kept
use esp_fmb.Prelude.{
  ℕ, zero, suc, ◌+◌, Bool, true, false, ◌&&◌, Option, none, some, List, [], ◌∷◌, ◌++◌, ltb, leb,
  ◌==◌, if◌then◌else◌, length, get_or, overlay,
}
use esp_fmb.Prelude.Int.{ℤ, pos, negsuc}
use esp_fmb.Ftp.Buf.{control, reading, writing, Dir, response_size, temp_size, NetBuf, send, Ctl}
use esp_fmb.Ftp.Line.{Line, LineRead, overflow, line_read, read_line}
use esp_fmb.Ftp.Line.Measure.{pending}

-- `strncmp` is 0.
unfoldable pub strncmp_eq : ℕ → List ℕ → List ℕ → Bool
strncmp_eq zero a b = true
strncmp_eq (suc n) [] b = true
strncmp_eq (suc n) (x ∷ a) [] = true
strncmp_eq (suc n) (x ∷ a) (y ∷ b) =
    let rest = strncmp_eq n a b in (x == y) && (if x == 0 then true else rest)

-- `strncpy` of three bytes.
abbrev pub strncpy3 : List ℕ → List ℕ
strncpy3 s =
    let a = get_or s 0 0 in
    let b = if a == 0 then 0 else get_or s 1 0 in
    let c = if b == 0 then 0 else get_or s 2 0 in a ∷ b ∷ c ∷ []

-- After a call of `readLine` for the array `response`: whether a line was read.
abbrev pub with_line : Ctl → Line → Ctl
with_line c l = record c {
  buf = record c.buf { avail = l.avail; recvs = l.recvs };
  response = overlay l.out c.response;
}

abbrev pub is_read : ℤ → Bool
is_read (pos n) = true
is_read (negsuc n) = false

abbrev pub stored : Ctl → LineRead → Option (Bool × Ctl)
stored c overflow = none
stored c (line_read l) = some (is_read l.ret, with_line c l)

unfoldable pub next_line : Ctl → Option (Bool × Ctl)
next_line c = stored c (read_line response_size c.buf.avail c.buf.recvs)

-- How the loop over a reply of many lines stops.
pub data Lines : Type 0 where
  matched : Ctl → Lines
  lost : Ctl → Lines
  overran : Lines
  endless : Lines

abbrev pub until_match : Bool → Ctl → Lines → Lines
until_match true d more = matched d
until_match false d more = more

-- `more` is what the next rounds do.
abbrev pub round : List ℕ → Option (Bool × Ctl) → (Ctl → Lines) → Lines
round m none more = overran
round m (some (false, d)) more = lost d
round m (some (true, d)) more = until_match (strncmp_eq 4 d.response m) d (more d)

unfoldable pub reply_lines : ℕ → List ℕ → Ctl → Lines
reply_lines zero m c = endless
reply_lines (suc n) m c = round m (next_line c) (reply_lines n m)

-- `if(nControl->response[0] == c)`.
abbrev pub first_is : ℕ → Ctl → Bool
first_is ch c = get_or c.response 0 0 == ch

-- No reply has more lines than there are bytes and answers to come.
abbrev pub lines_left : Ctl → ℕ
lines_left c = suc (pending c.buf.avail c.buf.recvs)

abbrev pub after_lines : ℕ → Lines → Option (Bool × Ctl)
after_lines ch (matched c) = some (first_is ch c, c)
after_lines ch (lost c) = some (false, c)
after_lines ch overran = none
after_lines ch endless = none

abbrev pub if_many : Bool → Option (Bool × Ctl) → Option (Bool × Ctl) → Option (Bool × Ctl)
if_many true many one = many
if_many false many one = one

abbrev pub after_first : ℕ → Option (Bool × Ctl) → Option (Bool × Ctl)
after_first ch none = none
after_first ch (some (false, c)) = some (false, c)
after_first ch (some (true, c)) =
    if_many (get_or c.response 3 0 == b'-')
      (after_lines ch (reply_lines (lines_left c) (strncpy3 c.response ++ b' ' ∷ []) c))
      (some (first_is ch c, c))

unfoldable pub read_response : ℕ → Ctl → Option (Bool × Ctl)
read_response ch c = after_first ch (next_line c)

abbrev pub if_sent : Bool → ℕ → Ctl → Option (Bool × Ctl)
if_sent true ch c = read_response ch c
if_sent false ch c = some (false, c)

abbrev pub after_send : ℕ → Ctl → ℕ × NetBuf → Option (Bool × Ctl)
after_send ch c (n, b) = if_sent (ltb 0 n) ch (record c { buf = b })

abbrev pub if_control : Dir → Option (Bool × Ctl) → Ctl → Option (Bool × Ctl)
if_control control r c = r
if_control reading r c = some (false, c)
if_control writing r c = some (false, c)

abbrev pub fits_or_not : Bool → Option (Bool × Ctl) → Ctl → Option (Bool × Ctl)
fits_or_not true r c = r
fits_or_not false r c = some (false, c)

unfoldable pub send_command : List ℕ → ℕ → Ctl → Option (Bool × Ctl)
send_command cmd ch c =
    let r = after_send ch c (send (cmd ++ b'\r' ∷ b'\n' ∷ []) c.buf) in
    if_control c.buf.dir (fits_or_not (leb (length cmd + 3) temp_size) r c) c
