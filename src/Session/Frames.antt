-- ===== src/Session/Frames.antt =====
-- The receiver cuts the bytes of the server into frames.
use esp_fmb.Prelude.{
  ℕ, zero, suc, overlay, ◌+◌, ◌/◌, ◌%◌, ◌≤◌, ◌<◌, ◌≡◌, refl, sym, ap, ap₂, ◌∙◌, none, List, [], ◌∷◌,
  ◌++◌, length, get_or, take, drop, length-append, append_assoc, append-nil, arith,
}
use esp_fmb.Prelude.Words.{u32, be32_at}
use esp_fmb.Prelude.Text.{codes, strstr}
use esp_fmb.Crc.Reference.{crc16}
use esp_fmb.Frame.{avl_frame, be32}
use esp_fmb.Record.Packet.{take-append}
use esp_fmb.Session.Receiver.{
  Recv, fresh, Incoming, waiting, acked, overrun_buffer, command, c_string, cut_line, body_part,
  scmd_of, complete, recv_byte,
}

-- What the bytes lead to, one after the other, without the bytes that complete nothing.
abbrev pub note : Incoming → List Incoming → List Incoming
note waiting is = is
note acked is = acked ∷ is
note overrun_buffer is = overrun_buffer ∷ is
note (command ctype scmd) is = command ctype scmd ∷ is

pub recv_all : List ℕ → Recv → Recv × List Incoming
recv_all [] r = (r, [])
recv_all (b ∷ bs) r =
    let (r', i) = recv_byte b r in let (end, is) = recv_all bs r' in (end, note i is)

-- A text that `strstr` and the end of a string leave as it is.
abbrev pub NoZero : List ℕ → Type 0
NoZero [] = Unit
NoZero (c ∷ s) = (1 ≤ c) × NoZero s

c_string-NoZero : (s : List ℕ) → NoZero s → c_string s ≡ s
c_string-NoZero [] h = refl
c_string-NoZero (c ∷ s) h = ground (arith, ap (◌∷◌ c) (c_string-NoZero s h.1))

stored-byte :
    (b : ℕ) (got : List ℕ) (w : ℕ)
    → length got + 1 < w
    → length got < 4096
    → recv_byte b (record { got = got; lenr_wait = w; left = [] })
      ≡ (record { got = got ++ b ∷ []; lenr_wait = w; left = [] }, waiting)
unfolding recv_byte
stored-byte b got w h k = ground (arith, length-append got (b ∷ []))

last-byte :
    (b : ℕ) (got : List ℕ) (w : ℕ)
    → length got + 1 ≡ w
    → length got < 4096
    → recv_byte b (record { got = got; lenr_wait = w; left = [] })
      ≡ complete (record { got = got ++ b ∷ []; lenr_wait = w; left = [] })
unfolding recv_byte
last-byte b got w h k = ground (arith, length-append got (b ∷ []))

recv_all-cons :
    (b : ℕ) (bs : List ℕ) (r r' : Recv) (i : Incoming)
    → recv_byte b r ≡ (r', i)
    → recv_all (b ∷ bs) r ≡ ((recv_all bs r').0, note i (recv_all bs r').1)
unfolding recv_all
recv_all-cons b bs r r' i e = rw e refl

-- Bytes that do not fill what is waited for are stored.
recv_all-stored :
    (bs got rest : List ℕ) (w : ℕ)
    → length got + length bs < w
    → length got + length bs ≤ 4096
    → recv_all (bs ++ rest) (record { got = got; lenr_wait = w; left = [] })
      ≡ recv_all rest (record { got = got ++ bs; lenr_wait = w; left = [] })
recv_all-stored [] got rest w h k = rw append-nil refl
recv_all-stored (b ∷ bs) got rest w h k =
    recv_all-cons b (bs ++ rest) _ _ waiting (stored-byte b got w (omega arith) (omega arith))
    ∙ rw (← append_assoc got (b ∷ []) bs) (
        recv_all-stored bs (got ++ b ∷ []) rest w (omega (arith, length-append got (b ∷ [])))
          (omega (arith, length-append got (b ∷ []))))

-- The first eight bytes of a frame that begins with four zeros.
recv_all-header :
    (a b c d : ℕ) (rest : List ℕ)
    → recv_all (0 ∷ 0 ∷ 0 ∷ 0 ∷ a ∷ b ∷ c ∷ d ∷ rest) fresh
      ≡ recv_all rest (record {
        got = 0 ∷ 0 ∷ 0 ∷ 0 ∷ a ∷ b ∷ c ∷ d ∷ [];
        lenr_wait = u32 (8 + be32_at (0 ∷ 0 ∷ 0 ∷ 0 ∷ a ∷ b ∷ c ∷ d ∷ []) 4 + 4);
        left = [];
      })
unfolding recv_all recv_byte complete
recv_all-header a b c d rest = refl

overlay-nil : (got : List ℕ) → overlay got [] ≡ got
overlay-nil got = ap (λ s. got ++ s) (drop-all (length got)) ∙ append-nil got
  where
    drop-all : (n : ℕ) → let e : List ℕ = [] in drop n e ≡ e
    drop-all zero = refl
    drop-all (suc n) = refl

complete-long :
    (got : List ℕ) (w : ℕ)
    → get_or got 3 0 ≡ 0
    → 8 < length got
    → complete (record { got = got; lenr_wait = w; left = [] })
      ≡ (fresh, command (get_or (overlay got []) 10 0) (scmd_of (overlay got [])))
unfolding complete
complete-long got w e h = ground arith

complete-command :
    (got : List ℕ) (w : ℕ)
    → get_or got 3 0 ≡ 0
    → 8 < length got
    → complete (record { got = got; lenr_wait = w; left = [] })
      ≡ (fresh, command (get_or got 10 0) (scmd_of got))
unfolding complete
complete-command got w e h =
    complete-long got w e h
    ∙ ap (λ s. (fresh, command (get_or s 10 0) (scmd_of s))) (overlay-nil got)

-- Whatever is between the header and the last byte that the header announces.
recv_all-whole :
    (a b c d : ℕ) (front : List ℕ) (last : ℕ) (more : List ℕ)
    → let head = 0 ∷ 0 ∷ 0 ∷ 0 ∷ a ∷ b ∷ c ∷ d ∷ [] in
      let whole = (head ++ front) ++ last ∷ [] in
      length front ≡ be32_at head 4 + 3
      → length front ≤ 4087
      → recv_all (head ++ (front ++ last ∷ more)) fresh ≡ (
        (recv_all more fresh).0,
        command (get_or whole 10 0) (scmd_of whole) ∷ (recv_all more fresh).1,
      )
recv_all-whole a b c d front last more e h =
    recv_all-header a b c d (front ++ last ∷ more)
    ∙ recv_all-stored front (0 ∷ 0 ∷ 0 ∷ 0 ∷ a ∷ b ∷ c ∷ d ∷ []) (last ∷ more) _ (omega (arith, e))
        (omega arith)
    ∙ recv_all-cons last more _ fresh (command _ _) (
        last-byte last ((0 ∷ 0 ∷ 0 ∷ 0 ∷ a ∷ b ∷ c ∷ d ∷ []) ++ front) _ (omega (arith, e))
          (omega arith)
        ∙ complete-command _ _ refl (omega (arith, length-append front (last ∷ []))))

be32_value : (n : ℕ) → n < 4294967296 → be32_at (be32 n) 0 ≡ n
be32_value n h = omega arith

-- A frame of the server whose data fit the buffer completes at its last byte, as a command.
recv_all-frame :
    (payload more : List ℕ)
    → length payload ≤ 4084
    → recv_all (avl_frame payload ++ more) fresh ≡ (
      (recv_all more fresh).0,
      command (get_or (avl_frame payload) 10 0) (scmd_of (avl_frame payload))
          ∷ (recv_all more fresh).1,
    )
recv_all-frame payload more h =
    let sum : ℕ = crc16 0 payload in
    let high : List ℕ = sum / 16777216 % 256 ∷ sum / 65536 % 256 ∷ sum / 256 % 256 ∷ [] in
    let avl_head : List ℕ = 0 ∷ 0 ∷ 0 ∷ 0 ∷ be32 (length payload) in
    ap (λ (x : List ℕ). recv_all (avl_head ++ x) fresh)
      (append_assoc payload (be32 sum) more ∙ sym (append_assoc payload high (sum % 256 ∷ more)))
    ∙ recv_all-whole _ _ _ _ (payload ++ high) (sum % 256) more
        (omega (arith, length-append payload high)) (omega (arith, length-append payload high))
    ∙ ap
        (λ (x : List ℕ). (
          (recv_all more fresh).0,
          command (get_or (avl_head ++ x) 10 0) (scmd_of (avl_head ++ x)) ∷ (recv_all more fresh).1,
        ))
        (append_assoc payload high (sum % 256 ∷ []))

-- The frame of a command with its type and text.
abbrev pub command_frame : ℕ → List ℕ → List ℕ
command_frame ctype text = avl_frame (12 ∷ 1 ∷ ctype ∷ be32 (length text) ++ (text ++ 1 ∷ []))

scmd_of-text :
    (got text rest : List ℕ)
    → body_part (be32_at got 11) ≡ length text
    → drop 15 got ≡ text ++ rest
    → NoZero text
    → strstr text (codes "\r\n") ≡ none
    → scmd_of got ≡ text
unfolding scmd_of
scmd_of-text got text rest n d z e =
    ap cut_line (
      ap₂ (λ (k : ℕ) (x : List ℕ). c_string (take k x)) n d
      ∙ ap c_string (take-append text rest)
      ∙ c_string-NoZero text z)
    ∙ rw (cut_line, e) refl

scmd_of-frame :
    (ctype : ℕ) (text : List ℕ)
    → length text < 256
    → NoZero text
    → strstr text (codes "\r\n") ≡ none
    → scmd_of (command_frame ctype text) ≡ text
scmd_of-frame ctype text h z e =
    scmd_of-text (command_frame ctype text) text
      (1 ∷ be32 (crc16 0 (12 ∷ 1 ∷ ctype ∷ be32 (length text) ++ (text ++ 1 ∷ []))))
      (ap body_part (be32_value (length text) (omega arith)) ∙ small_body)
      (append_assoc text (1 ∷ []) _) z e
  where
    small_body : body_part (length text) ≡ length text
    small_body = ground arith

-- A command of less than 256 bytes, without zeros and line ends, reaches `parse_cmd` with its
-- type and its text, and the receiver goes on with the bytes behind it as at the start.
pub recv_all-command :
    (ctype : ℕ) (text more : List ℕ)
    → length text < 256
    → NoZero text
    → strstr text (codes "\r\n") ≡ none
    → recv_all (command_frame ctype text ++ more) fresh
      ≡ ((recv_all more fresh).0, command ctype text ∷ (recv_all more fresh).1)
recv_all-command ctype text more h z e =
    recv_all-frame (12 ∷ 1 ∷ ctype ∷ be32 (length text) ++ (text ++ 1 ∷ [])) more
      (omega (arith, length-append text (1 ∷ [])))
    ∙ ap (λ (x : List ℕ). ((recv_all more fresh).0, command ctype x ∷ (recv_all more fresh).1))
        (scmd_of-frame ctype text h z e)
