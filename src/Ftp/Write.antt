-- ===== src/Ftp/Write.antt =====
-- `writeLine` of main/ftp_cli.c: text goes out with CR before each LF that has none, in blocks of the
-- size of the buffer.
pub mod Laws
pub mod Enough
use esp_fmb.Prelude.{
  ℕ, zero, suc, Bool, true, false, not, ◌&&◌, Option, none, some, List, [], ◌∷◌, ◌++◌, ◌==◌, length,
}
use esp_fmb.Ftp.Buf.{control, reading, writing, Dir, NetBuf, send, buffer_size}

-- What is in the buffer, or -1 if `send` took less than it was given.
abbrev pub Held : Type 0
Held = Option (List ℕ) × NetBuf

abbrev pub sent_all : Bool → NetBuf → Held
sent_all true b = (some [], b)
sent_all false b = (none, b)

unfoldable pub flush : List ℕ → NetBuf → Held
flush held b = let (n, d) = send held b in sent_all (n == length held) d

abbrev pub if_full : Bool → List ℕ → NetBuf → Held
if_full true held b = flush held b
if_full false held b = (some held, b)

abbrev pub appended : ℕ → Held → Held
appended c (none, b) = (none, b)
appended c (some held, b) = (some (held ++ c ∷ []), b)

-- A byte goes into the buffer, which is sent first when it is full.
abbrev pub put : ℕ → Held → Held
put c (none, b) = (none, b)
put c (some held, b) = appended c (if_full (length held == buffer_size) held b)

abbrev pub put_cr : Bool → Held → Held
put_cr true h = put b'\r' h
put_cr false h = h

-- The loop, with the byte before.
unfoldable pub put_all : ℕ → List ℕ → Held → Held
put_all last [] h = h
put_all last (c ∷ s) h = put_all c s (put c (put_cr ((c == b'\n') && not (last == b'\r')) h))

abbrev pub send_rest : Held → Held
send_rest (none, b) = (none, b)
send_rest (some [], b) = (some [], b)
send_rest (some (c ∷ held), b) = flush (c ∷ held) b

abbrev pub counted : ℕ → Held → Option ℕ × NetBuf
counted n (none, b) = (none, b)
counted n (some held, b) = (some n, b)

abbrev pub if_writing : Dir → Option ℕ × NetBuf → NetBuf → Option ℕ × NetBuf
if_writing writing r b = r
if_writing reading r b = (none, b)
if_writing control r b = (none, b)

-- The number of the bytes, or none for -1.
unfoldable pub write_line : List ℕ → NetBuf → Option ℕ × NetBuf
write_line s b = if_writing b.dir (counted (length s) (send_rest (put_all 0 s (some [], b)))) b
