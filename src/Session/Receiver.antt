-- ===== src/Session/Receiver.antt =====
-- The bytes of the server, one by one: the part of `fmb630_task` in main/fmb630.c under
-- `select`, with `from_server`, `lenr`, `ind` and `lenr_wait`. `lenr` and `ind` are the length of
-- `got`, the bytes received.
use esp_fmb.Prelude.{
  ℕ, ◌+◌, ◌-◌, ◌%◌, none, some, List, [], ◌∷◌, ◌++◌, ltb, ◌==◌, if◌then◌else◌, length, get_or, take,
  drop, overlay,
}
use esp_fmb.Prelude.Words.{u32, be32_at}
use esp_fmb.Prelude.Text.{codes, strstr}

-- `left` is what `from_server` held before; what stands behind `got` in the buffer of 4096 bytes is what
-- is left of it, and zeros.
pub record Recv : Type 0 where
  pub got : List ℕ
  pub lenr_wait : ℕ
  pub left : List ℕ

-- `from_server`, up to the zeros at its end.
abbrev pub from_server : Recv → List ℕ
from_server r = overlay r.got r.left

abbrev pub fresh : Recv
fresh = record { got = []; lenr_wait = 4; left = [] }

-- What has come: not all yet, the server's acknowledgement, a command with its type and text, or
-- a byte behind the end of the buffer.
pub data Incoming : Type 0 where
  waiting acked overrun_buffer : Incoming
  command : ℕ → List ℕ → Incoming

-- The string at the start of some bytes.
abbrev pub c_string : List ℕ → List ℕ
c_string [] = []
c_string (c ∷ s) = if c == 0 then [] else c ∷ c_string s

-- `uk = strstr(scmd, "\r\n"); if (uk) *uk = '\0'`.
abbrev pub cut_line : List ℕ → List ℕ
cut_line s = elim (strstr s (codes "\r\n")) [
  | none ↦ s
  | some rest ↦ take (length s - length rest) s
]

-- The bytes of the body that are taken, `body_len & 0xff` of them; `body_len` is an `int`.
abbrev pub body_part : ℕ → ℕ
body_part body_len = if ltb body_len 2147483648 then body_len % 256 else 0

-- The text of the command in the buffer with a whole frame.
unfoldable pub scmd_of : List ℕ → List ℕ
scmd_of got = cut_line (c_string (take (body_part (be32_at got 11)) (drop 15 got)))

-- A frame whose fourth byte is 0 announces its length in the next four.
unfoldable pub complete : Recv → Recv × Incoming
complete r =
    if get_or r.got 3 0 == 0
    then (if length r.got == 4
        then (record r { lenr_wait = r.lenr_wait + 4 }, waiting)
        else (if length r.got == 8
            then (record r { lenr_wait = u32 (r.lenr_wait + be32_at r.got 4 + 4) }, waiting)
            else (if ltb 8 (length r.got)
                then (fresh, command (get_or (from_server r) 10 0) (scmd_of (from_server r)))
                else (r, waiting))))
    else (fresh, acked)

unfoldable pub recv_byte : ℕ → Recv → Recv × Incoming
recv_byte b r =
    let next : Recv = record r { got = r.got ++ b ∷ [] } in
    if ltb (length r.got) 4096
    then (if length next.got == r.lenr_wait then complete next else (next, waiting))
    else (r, overrun_buffer)
