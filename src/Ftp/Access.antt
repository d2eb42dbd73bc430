-- ===== src/Ftp/Access.antt =====
-- The data connection of main/ftp_cli.c: `acceptConnection`, `closeFtpClient` and `accessFtpClient`.
pub mod Owns
pub mod Balance
use esp_fmb.Prelude.{
  ℕ, zero, suc, ◌+◌, ◌%◌, ◌^◌, ◌-◌, replicate, Bool, true, false, not, ◌||◌, ◌&&◌, Option, none,
  some, List, [], ◌∷◌, ◌++◌, ltb, leb, ◌==◌, if◌then◌else◌, length, get_or, overlay,
}
use esp_fmb.Prelude.Text.{codes, strchr, cut_at, print_u}
use esp_fmb.Ftp.Buf.{control, reading, writing, Dir, NetBuf, Ctl, temp_size}
use esp_fmb.Ftp.Reply.{send_command, read_response}
use esp_fmb.Ftp.Port.{say, fill, Opened, open_port}
use esp_fmb.Ftp.World.{
  World, Peer, Ready, error, timeout, data_ready, control_ready, ask, opened, socket, closesocket,
  alloc, free, peer, first_ready, Step, bind, on_ctl,
}

abbrev pub if_buffer : Bool → World → World
if_buffer true w = free w
if_buffer false w = w

-- Unless the last reply was an error, the server sends one more.
abbrev pub last_reply : Ctl → Option (Bool × Ctl)
last_reply c =
    if (get_or c.response 0 0 == b'4') || (get_or c.response 0 0 == b'5')
    then some (true, c)
    else read_response b'2' c

-- `closeFtpClient` of a data connection.
unfoldable pub close_data : NetBuf → Ctl → World → Step Bool
close_data b c w = on_ctl (free (closesocket b.handle (if_buffer b.text w))) (last_reply c)

-- `strerror` is a parameter: the text for the error of the call before.
module _ (strerror : World → List ℕ) where
  -- No connection: the number becomes 0.
  abbrev pub not_accepted : (Ctl → Ctl) → NetBuf → Ctl → World → Step (Bool × NetBuf)
  not_accepted text b c w = some ((false, record b { handle = 0 }), text c, w)

  abbrev pub accepted : NetBuf → Ctl → Bool × World → Step (Bool × NetBuf)
  accepted b c (false, w) = let v = closesocket b.handle w in not_accepted (fill (strerror w)) b c v
  accepted b c (true, w) =
      let (h, v) = opened w in
      let (p, u) = peer (closesocket b.handle v) in
      some ((true, record b { handle = h; recvs = p.recvs; sends = p.sends }), c, u)

  abbrev pub refused : NetBuf → World → Option (Bool × Ctl) → Step (Bool × NetBuf)
  refused b w none = none
  refused b w (some (ok, c)) = some ((false, record b { handle = 0 }), c, w)

  abbrev pub on_ready : NetBuf → Ctl → Ready × World → Step (Bool × NetBuf)
  on_ready b c (error, w) = not_accepted (fill (strerror w)) b c (closesocket b.handle w)
  on_ready b c (timeout, w) =
      not_accepted (say (codes "FTP Client accept connection timed out waiting for connection")) b c
        (closesocket b.handle w)
  on_ready b c (data_ready, w) = accepted b c (ask w)
  on_ready b c (control_ready, w) = refused b (closesocket b.handle w) (read_response b'2' c)

  unfoldable pub accept_connection : NetBuf → Ctl → World → Step (Bool × NetBuf)
  accept_connection b c w = on_ready b c (first_ready w w.readies)

-- The codes of `FtpAccess()`.
pub data Kind : Type 0 where
  list list_verbose file_read file_write mlsd : Kind
  other : ℕ → Kind

abbrev pub word_of : Kind → Option (List ℕ × Dir)
word_of list = some (codes "NLST", reading)
word_of list_verbose = some (codes "LIST", reading)
word_of file_read = some (codes "RETR", reading)
word_of file_write = some (codes "STOR", writing)
word_of mlsd = some (codes "MLSD", reading)
word_of (other n) = none

abbrev pub kind_number : Kind → ℕ
kind_number list = 1
kind_number list_verbose = 2
kind_number file_read = 3
kind_number file_write = 4
kind_number mlsd = 5
kind_number (other n) = n

-- The command for the transfer, if it fits.
abbrev pub transfer_command : List ℕ → Option (List ℕ) → Option (List ℕ)
transfer_command word none = some word
transfer_command word (some path) =
    if leb temp_size (length path + (length word + 1) + 1) then none else some (word ++ b' ' ∷ path)

module _ (strerror : World → List ℕ) (sscanf_u6 : List ℕ → List ℕ) where
  abbrev pub give_up : NetBuf → Ctl → World → Opened
  give_up b c w = bind (close_data b c w) (λ ok d v. some (none, d, v))

  abbrev pub if_accepted : Bool × NetBuf → Ctl → World → Opened
  if_accepted (true, b) c w = some (some b, c, w)
  if_accepted (false, b) c w = give_up b c w

  abbrev pub accept_if : Bool → NetBuf → Ctl → World → Opened
  accept_if true b c w = some (some b, c, w)
  accept_if false b c w = bind (accept_connection strerror b c w) if_accepted

  abbrev pub if_begun : NetBuf → Bool → Ctl → World → Opened
  if_begun b true c w = accept_if c.passive b c w
  if_begun b false c w = give_up b c w

  abbrev pub begin_transfer : List ℕ → Option NetBuf → Ctl → World → Opened
  begin_transfer cmd none c w = some (none, c, w)
  begin_transfer cmd (some b) c w = bind (on_ctl w (send_command cmd b'1' c)) (if_begun b)

  abbrev pub if_command : ℕ → Dir → Option (List ℕ) → Ctl → World → Opened
  if_command mode dir none c w = some (none, c, w)
  if_command mode dir (some cmd) c w = bind (open_port sscanf_u6 mode dir c w) (begin_transfer cmd)

  abbrev pub if_word : ℕ → Kind → Option (List ℕ) → Option (List ℕ × Dir) → Ctl → World → Opened
  if_word mode kind path none c w =
      some (none, say (codes "Invalid open type " ++ print_u (kind_number kind) ++ b'\n' ∷ []) c, w)
  if_word mode kind path (some (word, dir)) c w =
      if_command mode dir (transfer_command word path) c w

  abbrev pub if_typed : ℕ → Kind → Option (List ℕ) → Bool → Ctl → World → Opened
  if_typed mode kind path false c w = some (none, c, w)
  if_typed mode kind path true c w = if_word mode kind path (word_of kind) c w

  abbrev pub has_path : Kind → Option (List ℕ) → Bool
  has_path file_read none = false
  has_path file_write none = false
  has_path kind path = true

  abbrev pub if_path : Bool → Opened → Ctl → World → Opened
  if_path true r c w = r
  if_path false r c w =
      some (none, say (codes "Missing path argument for file transfer" ++ b'\n' ∷ []) c, w)

  unfoldable pub access : Option (List ℕ) → Kind → ℕ → Ctl → World → Opened
  access path kind mode c w =
      if_path (has_path kind path)
        (bind (on_ctl w (send_command (codes "TYPE " ++ mode ∷ []) b'2' c))
          (if_typed mode kind path))
        c w
