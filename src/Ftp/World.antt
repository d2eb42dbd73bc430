-- ===== src/Ftp/World.antt =====
-- What the FTP client of main/ftp_cli.c has around it: the sockets of lwIP, the allocator and the local
-- file of a transfer.
pub mod Owns
use esp_fmb.Prelude.{
  ℕ, zero, suc, ◌+◌, ◌-◌, Bool, true, false, Option, none, some, List, [], ◌∷◌, ◌++◌, ◌==◌,
  if◌then◌else◌,
}
use esp_fmb.Ftp.Buf.{Dir, Recv, NetBuf, Ctl}

-- What `select` finds in `acceptConnection`.
pub data Ready : Type 0 where
  error timeout data_ready control_ready : Ready

-- What comes from the other end of a socket, and how much it takes.
pub record Peer : Type 0 where
  pub recvs : List Recv
  pub sends : List ℕ

-- `answers` are those of the calls that succeed or fail, in the order of the calls; `sockets` are the open
-- sockets, the last first; `live` counts what is allocated; `file` is the local file, if it is there,
-- and `input` what is left to read of it; `dialled` are the addresses of `connect`.
pub record World : Type 0 where
  pub answers : List Bool
  pub peers : List Peer
  pub readies : List Ready
  pub next : ℕ
  pub sockets : List ℕ
  pub live : ℕ
  pub file : Option (List ℕ)
  pub input : List ℕ
  pub dialled : List (List ℕ)
  pub sockname : List ℕ

abbrev pub with_answers : World → List Bool → Bool × World
with_answers w [] = (false, w)
with_answers w (a ∷ rest) = (a, record w { answers = rest })

abbrev pub ask : World → Bool × World
ask w = with_answers w w.answers

-- A new socket, and its number.
abbrev pub opened : World → ℕ × World
opened w = (w.next, record w { next = suc w.next; sockets = w.next ∷ w.sockets })

abbrev pub if_opened : Bool × World → Option ℕ × World
if_opened (false, w) = (none, w)
if_opened (true, w) = (some w.next, (opened w).1)

abbrev pub socket : World → Option ℕ × World
socket w = if_opened (ask w)

abbrev pub remove : ℕ → List ℕ → List ℕ
remove h [] = []
remove h (x ∷ xs) = let rest = remove h xs in if x == h then xs else x ∷ rest

unfoldable pub closesocket : ℕ → World → World
closesocket h w = record w { sockets = remove h w.sockets }

abbrev pub if_allocated : Bool × World → Bool × World
if_allocated (false, w) = (false, w)
if_allocated (true, w) = (true, record w { live = suc w.live })

-- `malloc` and `calloc`.
abbrev pub alloc : World → Bool × World
alloc w = if_allocated (ask w)

abbrev pub free : World → World
free w = record w { live = w.live - 1 }

abbrev pub first_peer : World → List Peer → Peer × World
first_peer w [] = (record { recvs = []; sends = [] }, w)
first_peer w (p ∷ ps) = (p, record w { peers = ps })

-- The other end of a new connection.
abbrev pub peer : World → Peer × World
peer w = first_peer w w.peers

abbrev pub first_ready : World → List Ready → Ready × World
first_ready w [] = (timeout, w)
first_ready w (r ∷ rs) = (r, record w { readies = rs })

-- `unlink` of the local file.
abbrev pub unlink : World → World
unlink w = record w { file = none }

-- What follows an operation that gives a result, changes the connection and the world, or writes
-- behind its buffer.
abbrev pub Step : Type 0 → Type 0
Step A = Option (A × Ctl × World)

abbrev pub bind : {A B : Type 0} → Step A → (A → Ctl → World → Step B) → Step B
bind none k = none
bind (some (a, c, w)) k = k a c w

-- An operation on the control connection alone.
abbrev pub on_ctl : World → Option (Bool × Ctl) → Step Bool
on_ctl w none = none
on_ctl w (some (b, c)) = some (b, c, w)
