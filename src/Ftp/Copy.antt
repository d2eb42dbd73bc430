-- ===== src/Ftp/Copy.antt =====
-- `readFtpClient`, `writeFtpClient` and `xfer` of main/ftp_cli.c, for a local file that has a name.
-- None is what C leaves undefined: a line that goes behind its buffer, or a transfer whose buffer
-- `malloc` did not give.
pub mod Owns
pub mod Lines
pub mod Ends
pub mod Balance
use esp_fmb.Prelude.{
  ℕ, zero, suc, ◌+◌, Bool, true, false, Option, none, some, List, [], ◌∷◌, ◌++◌, leb, length, take,
  drop,
}
use esp_fmb.Prelude.Int.{ℤ, pos, negsuc}
use esp_fmb.Ftp.Buf.{
  control, reading, writing, Dir, Recv, failed, got, NetBuf, Ctl, send, buffer_size,
}
use esp_fmb.Ftp.Line.{Line, LineRead, overflow, line_read, read_line}
use esp_fmb.Ftp.Line.Measure.{pending}
use esp_fmb.Ftp.Write.{write_line}
use esp_fmb.Ftp.World.{World, ask, alloc, free, unlink, Step, bind}
use esp_fmb.Ftp.Port.{ascii, fill}
use esp_fmb.Ftp.Access.{
  Kind, list, list_verbose, file_read, file_write, mlsd, other, access, close_data,
}

-- The bytes that `readFtpClient` gives; no bytes are the value 0.
abbrev pub Chunk : Type 0
Chunk = Option (List ℕ × NetBuf)

abbrev pub line_bytes : ℤ → List ℕ → List ℕ
line_bytes (pos n) out = take n out
line_bytes (negsuc n) out = []

abbrev pub line_chunk : NetBuf → LineRead → Chunk
line_chunk b overflow = none
line_chunk b (line_read l) =
    some (line_bytes l.ret l.out, record b { avail = l.avail; recvs = l.recvs })

abbrev pub recv_chunk : NetBuf → List Recv → List ℕ × NetBuf
recv_chunk b [] = ([], b)
recv_chunk b (failed ∷ rs) = ([], record b { recvs = rs })
recv_chunk b (got bs ∷ rs) = (take buffer_size bs, record b { recvs = rs })

abbrev pub by_text : Bool → NetBuf → Chunk
by_text true b = line_chunk b (read_line buffer_size b.avail b.recvs)
by_text false b = some (recv_chunk b b.recvs)

abbrev pub if_reading : Dir → Chunk → NetBuf → Chunk
if_reading reading r b = r
if_reading writing r b = some ([], b)
if_reading control r b = some ([], b)

unfoldable pub read_client : NetBuf → Chunk
read_client b = if_reading b.dir (by_text b.text b) b

abbrev pub or_zero : Option ℕ × NetBuf → ℕ × NetBuf
or_zero (none, b) = (0, b)
or_zero (some n, b) = (n, b)

abbrev pub write_by_text : Bool → List ℕ → NetBuf → ℕ × NetBuf
write_by_text true s b = or_zero (write_line s b)
write_by_text false s b = send s b

abbrev pub if_writes : Dir → ℕ × NetBuf → NetBuf → ℕ × NetBuf
if_writes writing r b = r
if_writes reading r b = (0, b)
if_writes control r b = (0, b)

unfoldable pub write_client : List ℕ → NetBuf → ℕ × NetBuf
write_client s b = if_writes b.dir (write_by_text b.text s b) b

-- How the loop of a transfer stops, with the value of `xfer`.
pub data Copied : Type 0 where
  copied : Bool → NetBuf → World → Copied
  undefined : Copied
  endless : Copied

abbrev pub added : List ℕ → Option (List ℕ) → Option (List ℕ)
added bs none = none
added bs (some s) = some (s ++ bs)

-- `fwrite` writes all or nothing.
abbrev pub keep : List ℕ → NetBuf → Bool × World → (NetBuf → World → Copied) → Copied
keep bs b (false, w) more = copied false b w
keep bs b (true, w) more = more b (record w { file = added bs w.file })

abbrev pub in_round : Chunk → World → (NetBuf → World → Copied) → Copied
in_round none w more = undefined
in_round (some ([], b)) w more = copied true b w
in_round (some (c ∷ bs, b)) w more = keep (c ∷ bs) b (ask w) more

unfoldable pub copy_in : ℕ → NetBuf → World → Copied
copy_in zero b w = endless
copy_in (suc n) b w = in_round (read_client b) w (copy_in n)

abbrev pub if_written : Bool → NetBuf → World → (NetBuf → World → Copied) → Copied
if_written false b w more = copied false b w
if_written true b w more = more b w

abbrev pub written_all : List ℕ → ℕ × NetBuf → World → (NetBuf → World → Copied) → Copied
written_all s (n, b) w more = if_written (leb (length s) n) b w more

abbrev pub out_round : List ℕ → NetBuf → World → (NetBuf → World → Copied) → Copied
out_round [] b w more = copied true b w
out_round (c ∷ s) b w more = written_all (c ∷ s) (write_client (c ∷ s) b) w more

unfoldable pub copy_out : ℕ → NetBuf → World → Copied
copy_out zero b w = endless
copy_out (suc n) b w =
    out_round (take buffer_size w.input) b (record w { input = drop buffer_size w.input })
      (copy_out n)

-- There are no more rounds than bytes and answers to come.
abbrev pub copy : Kind → NetBuf → World → Copied
copy file_write b w = copy_out (suc (length w.input)) b w
copy kind b w = copy_in (suc (pending b.avail b.recvs)) b w

abbrev pub file_bytes : Option (List ℕ) → List ℕ
file_bytes none = []
file_bytes (some s) = s

-- `fopen`: the file for reading, or a new one.
abbrev pub fopen : Kind → World → World
fopen file_write w = record w { input = file_bytes w.file }
fopen kind w = record w { file = some [] }

abbrev pub unless_kept : Bool → World → World
unless_kept true w = w
unless_kept false w = unlink w

abbrev pub no_access : Kind → World → World
no_access file_read w = unlink w
no_access kind w = w

abbrev pub finish : Ctl → Copied → Step Bool
finish c undefined = none
finish c endless = none
finish c (copied rv b w) =
    bind (close_data b c (unless_kept rv (free w))) (λ ok d v. some (rv, d, v))

abbrev pub with_dbuf : Kind → NetBuf → Ctl → Bool × World → Step Bool
with_dbuf kind b c (false, w) = none
with_dbuf kind b c (true, w) = finish c (copy kind b w)

abbrev pub after_access : Kind → Option NetBuf → Ctl → World → Step Bool
after_access kind none c w = some (false, c, no_access kind w)
after_access kind (some b) c w = with_dbuf kind b c (alloc w)

module _ (strerror : World → List ℕ) (sscanf_u6 : List ℕ → List ℕ) where
  abbrev pub if_fopen : Option (List ℕ) → Kind → ℕ → Ctl → Bool × World → Step Bool
  if_fopen path kind mode c (false, w) = some (false, fill (strerror w) c, w)
  if_fopen path kind mode c (true, w) =
      bind (access strerror sscanf_u6 path kind mode c (fopen kind w)) (after_access kind)

  unfoldable pub xfer : Option (List ℕ) → Kind → ℕ → Ctl → World → Step Bool
  xfer path kind mode c w = if_fopen path kind mode c (ask w)

  unfoldable pub dir : Option (List ℕ) → Ctl → World → Step Bool
  dir path c w = xfer path list_verbose ascii c w

  unfoldable pub nlst : Option (List ℕ) → Ctl → World → Step Bool
  nlst path c w = xfer path list ascii c w

  unfoldable pub list_mlsd : Option (List ℕ) → Ctl → World → Step Bool
  list_mlsd path c w = xfer path mlsd ascii c w

  unfoldable pub get_data : Option (List ℕ) → ℕ → Ctl → World → Step Bool
  get_data path mode c w = xfer path file_read mode c w

  unfoldable pub put_data : Option (List ℕ) → ℕ → Ctl → World → Step Bool
  put_data path mode c w = xfer path file_write mode c w
