-- ===== src/Ftp/Reply/Kept.antt =====
-- Commands change neither the socket nor the mode of the control connection.
use esp_fmb.Prelude.{
  ℕ, zero, suc, ◌+◌, ◌≡◌, Bool, true, false, Option, none, some, List, [], ◌∷◌, ◌++◌, ◌==◌, get_or,
  ltb, leb, length, take, min,
}
use esp_fmb.Prelude.Text.{codes}
use esp_fmb.Ftp.Buf.{control, reading, writing, Dir, Ctl, send, send_some, response_size, temp_size}
use esp_fmb.Ftp.Line.{LineRead, line_read, overflow, read_line}
use esp_fmb.Ftp.Reply.{
  strncmp_eq, strncpy3, stored, next_line, Lines, matched, lost, overran, endless, until_match,
  round, reply_lines, first_is, lines_left, after_lines, after_first, if_many, read_response,
  after_send, if_sent, if_control, fits_or_not, send_command,
}
use esp_fmb.Ftp.Requests.{after_user, login}

-- What a control connection keeps.
abbrev pub Same : Ctl → Ctl → Type 0
Same c d =
    (d.buf.handle ≡ c.buf.handle)
    × (d.buf.dir ≡ c.buf.dir)
    × (d.buf.text ≡ c.buf.text)
    × (d.passive ≡ c.passive)

abbrev pub Kept : Ctl → Option (Bool × Ctl) → Type 0
Kept c none = Unit
Kept c (some (b, d)) = Same c d

stored-Kept : (k c : Ctl) (r : LineRead) → Same k c → Kept k (stored c r)
stored-Kept k c overflow s = tt
stored-Kept k c (line_read l) s = s

next_line-Kept : (k c : Ctl) → Same k c → Kept k (next_line c)
unfolding next_line
next_line-Kept k c s = stored-Kept k c (read_line response_size c.buf.avail c.buf.recvs) s

abbrev LinesKept : Ctl → Lines → Type 0
LinesKept c (matched d) = Same c d
LinesKept c (lost d) = Same c d
LinesKept c overran = Unit
LinesKept c endless = Unit

until_match-Kept :
    (k : Ctl) (t : Bool) (d : Ctl) (more : Lines)
    → Same k d
    → LinesKept k more
    → LinesKept k (until_match t d more)
until_match-Kept k true d more s l = s
until_match-Kept k false d more s l = l

round-Kept :
    (k : Ctl) (m : List ℕ) (o : Option (Bool × Ctl)) (more : Ctl → Lines)
    → Kept k o
    → ((d : Ctl) → Same k d → LinesKept k (more d))
    → LinesKept k (round m o more)
round-Kept k m none more s l = tt
round-Kept k m (some (false, d)) more s l = s
round-Kept k m (some (true, d)) more s l =
    until_match-Kept k (strncmp_eq 4 d.response m) d (more d) s (l d s)

reply_lines-Kept : (n : ℕ) (m : List ℕ) (k c : Ctl) → Same k c → LinesKept k (reply_lines n m c)
unfolding reply_lines
reply_lines-Kept zero m k c s = tt
reply_lines-Kept (suc n) m k c s =
    round-Kept k m (next_line c) (reply_lines n m) (next_line-Kept k c s)
      (λ d t. reply_lines-Kept n m k d t)

after_lines-Kept : (ch : ℕ) (k : Ctl) (l : Lines) → LinesKept k l → Kept k (after_lines ch l)
after_lines-Kept ch k (matched c) s = s
after_lines-Kept ch k (lost c) s = s
after_lines-Kept ch k overran s = tt
after_lines-Kept ch k endless s = tt

if_many-Kept :
    (t : Bool) (k : Ctl) (many one : Option (Bool × Ctl))
    → Kept k many
    → Kept k one
    → Kept k (if_many t many one)
if_many-Kept true k many one s u = s
if_many-Kept false k many one s u = u

after_first-Kept :
    (ch : ℕ) (k : Ctl) (o : Option (Bool × Ctl)) → Kept k o → Kept k (after_first ch o)
after_first-Kept ch k none s = tt
after_first-Kept ch k (some (false, c)) s = s
after_first-Kept ch k (some (true, c)) s =
    let m = strncpy3 c.response ++ 32 ∷ [] in
    if_many-Kept (get_or c.response 3 0 == 45) k (after_lines ch (reply_lines (lines_left c) m c))
      (some (first_is ch c, c))
      (after_lines-Kept ch k (reply_lines (lines_left c) m c)
        (reply_lines-Kept (lines_left c) m k c s))
      s

pub read_response-Kept : (ch : ℕ) (k c : Ctl) → Same k c → Kept k (read_response ch c)
unfolding read_response
read_response-Kept ch k c s = after_first-Kept ch k (next_line c) (next_line-Kept k c s)

if_sent-Kept : (t : Bool) (ch : ℕ) (k c : Ctl) → Same k c → Kept k (if_sent t ch c)
if_sent-Kept true ch k c e = read_response-Kept ch k c e
if_sent-Kept false ch k c e = e

sent-Kept :
    (ch : ℕ) (s ns : List ℕ) (k c : Ctl)
    → Same k c
    → Kept k (after_send ch c (send_some s ns c.buf))
sent-Kept ch s [] k c e = e
sent-Kept ch s (n ∷ ns) k c e =
    if_sent-Kept (ltb 0 (min n (length s))) ch k
      (record c { buf = record c.buf { sends = ns; sent = take n s ∷ c.buf.sent } }) e

fits_or_not-Kept :
    (t : Bool) (k : Ctl) (r : Option (Bool × Ctl)) (c : Ctl)
    → Kept k r
    → Same k c
    → Kept k (fits_or_not t r c)
fits_or_not-Kept true k r c s e = s
fits_or_not-Kept false k r c s e = e

if_control-Kept :
    (i : Dir) (k : Ctl) (r : Option (Bool × Ctl)) (c : Ctl)
    → Kept k r
    → Same k c
    → Kept k (if_control i r c)
if_control-Kept control k r c s e = s
if_control-Kept reading k r c s e = e
if_control-Kept writing k r c s e = e

pub send_command-Kept :
    (cmd : List ℕ) (ch : ℕ) (k c : Ctl) → Same k c → Kept k (send_command cmd ch c)
unfolding send_command
send_command-Kept cmd ch k c e =
    let s = cmd ++ 13 ∷ 10 ∷ [] in
    let r = after_send ch c (send s c.buf) in
    let f =
      fits_or_not-Kept (leb (length cmd + 3) temp_size) k r c (sent-Kept ch s c.buf.sends k c e)
        e in
    if_control-Kept c.buf.dir k (fits_or_not (leb (length cmd + 3) temp_size) r c) c f e

after_user-Kept :
    (pass : List ℕ) (k : Ctl) (o : Option (Bool × Ctl)) → Kept k o → Kept k (after_user pass o)
after_user-Kept pass k none s = tt
after_user-Kept pass k (some (false, c)) s = s
after_user-Kept pass k (some (true, c)) s = send_command-Kept (codes "PASS " ++ pass) 50 k c s

pub login-Kept : (user pass : List ℕ) (k c : Ctl) → Same k c → Kept k (login user pass c)
unfolding login
login-Kept user pass k c e =
    let both = after_user pass (send_command (codes "USER " ++ user) 51 c) in
    let s =
      after_user-Kept pass k (send_command (codes "USER " ++ user) 51 c)
        (send_command-Kept (codes "USER " ++ user) 51 k c e) in
    fits_or_not-Kept (leb (length user + 7) 64) k (fits_or_not (leb (length pass + 7) 64) both c) c
      (fits_or_not-Kept (leb (length pass + 7) 64) k both c s e) e
