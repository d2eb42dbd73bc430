-- ===== src/Ftp/Buf.antt =====
-- A connection, `NetBuf` of main/ftp_cli.c and main/ftp_cli.h, and what stands behind it.
use esp_fmb.Prelude.{ℕ, Bool, List, [], ◌∷◌, min, length, take}

-- `FTP_CLIENT_CONTROL`, `FTP_CLIENT_READ` and `FTP_CLIENT_WRITE`.
pub data Dir : Type 0 where
  control reading writing : Dir

-- What `recv` gives: an error, or bytes; no bytes are the end of the stream. The answers to come are
-- finitely many, and behind them `recv` fails.
pub data Recv : Type 0 where
  failed : Recv
  got : List ℕ → Recv

abbrev pub buffer_size : ℕ
buffer_size = 2048

abbrev pub response_size : ℕ
response_size = 1024

abbrev pub temp_size : ℕ
temp_size = 1024

-- `avail` are the `cavail` bytes from `cget` on; `cput` stands behind them. `text` says whether there
-- is a buffer. `sends` says of each `send` to come how many bytes it takes at most, nothing being an
-- error, and `sent` is what was taken, the last first.
pub record NetBuf : Type 0 where
  pub handle : ℕ
  pub dir : Dir
  pub text : Bool
  pub avail : List ℕ
  pub recvs : List Recv
  pub sends : List ℕ
  pub sent : List (List ℕ)

-- The control connection, with the bytes of the array `response` and the mode of its data connections.
pub record Ctl : Type 0 where
  pub buf : NetBuf
  pub response : List ℕ
  pub passive : Bool

-- `send`: the number of the bytes taken.
abbrev pub send_some : List ℕ → List ℕ → NetBuf → ℕ × NetBuf
send_some bs [] b = (0, b)
send_some bs (n ∷ ns) b = (min n (length bs), record b { sends = ns; sent = take n bs ∷ b.sent })

abbrev pub send : List ℕ → NetBuf → ℕ × NetBuf
send bs b = send_some bs b.sends b
