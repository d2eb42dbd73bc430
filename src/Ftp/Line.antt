-- ===== src/Ftp/Line.antt =====
-- `readLine` of main/ftp_cli.c. It asks for new bytes only when all the old ones are taken, so that
-- `recv` always has the whole buffer.
pub mod Laws
pub mod Measure
pub mod Pieces
use esp_fmb.Prelude.{
  ℕ, zero, suc, ◌+◌, ◌-◌, Bool, true, false, ◌&&◌, Option, none, some, List, [], ◌∷◌, ◌++◌, ltb,
  leb, ◌==◌, if◌then◌else◌, length, take, drop,
}
use esp_fmb.Prelude.Int.{ℤ, pos, negsuc}
use esp_fmb.Ftp.Buf.{Recv, failed, got, buffer_size}

-- `memccpy(.., '\n', n)`: the bytes copied, and whether the last is a line end.
abbrev pub memccpy : ℕ → List ℕ → List ℕ × Bool
memccpy zero bs = ([], false)
memccpy (suc n) [] = ([], false)
memccpy (suc n) (b ∷ bs) =
    let (copied, found) = memccpy n bs in if b == b'\n' then (b ∷ [], true) else (b ∷ copied, found)

-- What stands before the CR and LF at the end. A line of one byte is compared from the byte before
-- the buffer on, which is taken for another one than CR.
unfoldable pub before_crlf : List ℕ → Option (List ℕ)
before_crlf [] = none
before_crlf (c ∷ []) = none
before_crlf (c ∷ d ∷ []) = if (c == b'\r') && (d == b'\n') then some [] else none
before_crlf (c ∷ d ∷ e ∷ s) = elim (before_crlf (d ∷ e ∷ s)) [ none ↦ none | some t ↦ some (c ∷ t) ]

-- The state after the bytes at hand are taken: the line end was found, only the place for the
-- terminator is left, the terminator went behind the buffer, or more is wanted. `line` is what the
-- buffer holds.
pub data Taken : Type 0 where
  ended : List ℕ → List ℕ → Taken
  full : List ℕ → List ℕ → Taken
  overran : Taken
  wants : List ℕ → ℕ → Taken

-- The state after `copied` was copied.
unfoldable pub taken : ℕ → List ℕ → List ℕ → List ℕ → Bool → Taken
taken max line avail copied found =
    let rest = drop (length copied) avail in
    if (length copied == max) && ltb 0 max
    then overran
    else (if found
        then ended (line ++ copied) rest
        else (if max - length copied == 1
            then full (line ++ copied) rest
            else wants (line ++ copied) (max - length copied)))

-- The part of the loop under `ctl->cavail > 0`, and the test behind it. `max` is the room left.
unfoldable pub take_in : ℕ → List ℕ → List ℕ → Taken
take_in max line avail =
    let x = if leb (length avail) max then length avail else max - 1 in
    let (copied, found) = memccpy x avail in taken max line avail copied found

-- The value returned, the bytes that were written to the buffer, and what is left to read.
pub record Line : Type 0 where
  pub ret : ℤ
  pub out : List ℕ
  pub avail : List ℕ
  pub recvs : List Recv

pub data LineRead : Type 0 where
  overflow : LineRead
  line_read : Line → LineRead

abbrev pub written : List ℕ → List ℕ
written [] = []
written (c ∷ line) = c ∷ line ++ 0 ∷ []

-- With CR and LF at the end, LF takes the place of CR.
abbrev pub end_line : List ℕ → Option (List ℕ) → List ℕ → List Recv → Line
end_line line none rest recvs = record {
  ret = pos (length line);
  out = written line;
  avail = rest;
  recvs = recvs;
}
end_line line (some t) rest recvs = record {
  ret = pos (length line - 1);
  out = t ++ b'\n' ∷ 0 ∷ 0 ∷ [];
  avail = rest;
  recvs = recvs;
}

abbrev pub broken : List ℕ → List Recv → Line
broken line recvs = record { ret = negsuc 0; out = written line; avail = []; recvs = recvs }

-- The end of the stream: -1 if nothing was read.
abbrev pub at_eof : List ℕ → List Recv → Line
at_eof [] recvs = record { ret = negsuc 0; out = []; avail = []; recvs = recvs }
at_eof (c ∷ line) recvs = record {
  ret = pos (suc (length line));
  out = written (c ∷ line);
  avail = [];
  recvs = recvs;
}

unfoldable pub resume : Taken → List Recv → LineRead
resume (ended line rest) recvs = line_read (end_line line (before_crlf line) rest recvs)
resume (full line rest) recvs = line_read (record {
  ret = pos (length line);
  out = 0 ∷ drop 1 (written line);
  avail = rest;
  recvs = recvs;
})
resume overran recvs = overflow
resume (wants line max) [] = line_read (broken line [])
resume (wants line max) (failed ∷ recvs) = line_read (broken line recvs)
resume (wants line max) (got [] ∷ recvs) = line_read (at_eof line recvs)
resume (wants line max) (got (b ∷ bs) ∷ recvs) =
    resume (take_in max line (take buffer_size (b ∷ bs))) recvs

-- `max` is the size of the buffer, of two bytes at least.
unfoldable pub read_line : ℕ → List ℕ → List Recv → LineRead
read_line max avail recvs = resume (take_in max [] avail) recvs
