-- ===== src/Command/Reply.antt =====
-- The bytes of the answers of `parse_cmd`.
use esp_fmb.Prelude.{
  subst, if◌then◌else◌, ◌==◌, Bool-cases, inl, inr, Option, some, none, ℕ, zero, suc, ◌+◌, ◌≤◌, ◌<◌,
  ◌≡◌, refl, sym, ap, ap₂, ◌∙◌, List, [], ◌∷◌, ◌++◌, length, take, drop, length-append,
  append_assoc, arith, replicate,
}
use esp_fmb.Prelude.Words.{u8, u32, htons, htonl, le16, le32}
use esp_fmb.Crc.{ksum}
use esp_fmb.Crc.Reference.{AllBytes}
use esp_fmb.Frame.{avl_frame, be32}
use esp_fmb.Record.Packet.{framed, AllBytes-append, le32-htonl}
use esp_fmb.Device.{Device}
use esp_fmb.Command.Words.{Cmd}
use esp_fmb.Command.{
  Answer, Outcome, overflow, answered, World, Parsed, respond, parse_cmd, answer_bytes,
}

-- The data of an answer to the command type `ct`, whose announced length is `i`.
abbrev pub answer_data : ℕ → ℕ → ℕ → List ℕ → List ℕ
answer_data cid ct i body = cid ∷ 1 ∷ u8 (ct + 1) ∷ be32 i ++ (body ++ 1 ∷ [])

-- What stands behind the string in an answer with codec 13.
abbrev pub leftover : Answer → List ℕ
leftover a = take 4 (0 ∷ drop (length a.text + 1) a.stale ++ replicate 3 0)

length-take_append : (xs ys : List ℕ) (n : ℕ) → n ≤ length ys → length (take n (xs ++ ys)) ≡ n
length-take_append xs ys zero h = refl
length-take_append [] [] (suc n) h = omega arith
length-take_append [] (y ∷ ys) (suc n) h = ap suc (length-take_append [] ys n (omega arith))
length-take_append (x ∷ xs) ys (suc n) h = ap suc (length-take_append xs ys n (omega arith))

pub length-leftover : (a : Answer) → length (leftover a) ≡ 4
length-leftover a =
    ap suc (length-take_append (drop (length a.text + 1) a.stale) (0 ∷ 0 ∷ 0 ∷ []) 3 (omega arith))

data_bytes :
    (cid ct i : ℕ) (body : List ℕ)
    → cid < 256
    → AllBytes body
    → AllBytes (answer_data cid ct i body)
data_bytes cid ct i body h k = (
  h,
  (
    omega arith,
    (
      omega arith,
      (
        omega arith,
        (
          omega arith,
          (omega arith, (omega arith, AllBytes-append body (1 ∷ []) k (omega arith, tt))),
        ),
      ),
    ),
  ),
)

framed_answer :
    (cid ct i n : ℕ) (body : List ℕ)
    → cid < 256
    → AllBytes body
    → n ≡ length body + 8
    → (let summed = cid ∷ 1 ∷ u8 (ct + 1) ∷ le32 (htonl i) ++ (body ++ 1 ∷ 0 ∷ 0 ∷ []) in
        le32 0 ++ (le32 (htonl n) ++ (summed ++ le16 (htons (ksum summed n)))))
      ≡ avl_frame (answer_data cid ct i body)
framed_answer cid ct i n body h k e =
    ap
      (λ (x : List ℕ).
        let summed = cid ∷ 1 ∷ u8 (ct + 1) ∷ x in
        le32 0 ++ (le32 (htonl n) ++ (summed ++ le16 (htons (ksum summed n)))))
      (ap₂ (λ (x y : List ℕ). x ++ y) (le32-htonl i)
        (sym (append_assoc body (1 ∷ []) (0 ∷ 0 ∷ []))))
    ∙ framed (answer_data cid ct i body) n (data_bytes cid ct i body h k)
        (omega (arith, e, length-append body (1 ∷ [])))

-- With codec 12, and for a string of bytes, the answer is a frame that holds one response: its
-- length and the string.
pub answer_bytes-frame :
    (time ct : ℕ) (a : Answer)
    → a.cid ≡ 12
    → AllBytes a.text
    → answer_bytes time ct a ≡ avl_frame (answer_data 12 ct (length a.text) a.text)
unfolding answer_bytes
answer_bytes-frame time ct a c h =
    simp c (framed_answer 12 ct (length a.text) _ a.text (omega arith) h (omega arith))

-- With codec 13, and for bytes in the string and the buffer, the answer is a frame that announces
-- a response of the four bytes of the time and the string, while the four bytes of `leftover` follow
-- the string too.
pub answer_bytes-timed :
    (time ct : ℕ) (a : Answer)
    → a.cid ≡ 13
    → AllBytes a.text
    → AllBytes (leftover a)
    → answer_bytes time ct a
      ≡ avl_frame
          (answer_data 13 ct (length a.text + 4) (be32 (u32 time) ++ (a.text ++ leftover a)))
unfolding answer_bytes
answer_bytes-timed time ct a c h k = simp c (
    framed_answer 13 ct (length a.text + 4) _ (le32 (htonl (u32 time)) ++ (a.text ++ leftover a))
      (omega arith)
      (
        omega arith,
        (omega arith, (omega arith, (omega arith, AllBytes-append a.text (leftover a) h k))),
      )
      (omega (arith, length-append a.text (leftover a), length-leftover a))
    ∙ ap
        (λ (x : List ℕ).
          avl_frame (answer_data 13 ct (length a.text + 4) (x ++ (a.text ++ leftover a))))
        (le32-htonl (u32 time)))

-- The header of 15 bytes, a body, the byte and the zeros behind it, and the checksum.
abbrev behind_header : ℕ → ℕ
behind_header n =
    suc (suc (suc (suc (suc (suc (suc (suc (suc (suc (suc (suc (suc (suc (suc n))))))))))))))

length-tail :
    (body : List ℕ) (k : ℕ) → length ((body ++ 1 ∷ 0 ∷ 0 ∷ []) ++ le16 k) ≡ length body + 5
length-tail body k =
    omega
      (arith, length-append body (1 ∷ 0 ∷ 0 ∷ []), length-append (body ++ 1 ∷ 0 ∷ 0 ∷ []) (le16 k))

length-answer_bytes :
    (time ct : ℕ) (a : Answer)
    → let i = if a.cid == 13 then length a.text + 4 else length a.text in
      length (answer_bytes time ct a) ≡ (if a.cid == 13 then 15 + i + 3 + 2 + 4 else 15 + i + 3 + 2)
unfolding answer_bytes
length-answer_bytes time ct a = elim (Bool-cases (a.cid == 13)) [
  | inl e ↦ simp e (
      ap behind_header (length-tail (le32 (htonl (u32 time)) ++ (a.text ++ leftover a)) _)
      ∙ omega (arith, length-leftover a, length-append a.text (leftover a)))
  | inr e ↦ simp e (ap behind_header (length-tail a.text _) ∙ omega arith)
]

respond-length :
    (w : World) (ct : ℕ) (cmd : Option Cmd) (o : Outcome) (p : Parsed)
    → respond w ct cmd o ≡ some p
    → length p.out ≡ p.ret
unfolding respond
respond-length w ct cmd overflow p e = cc e
respond-length w ct cmd (answered a) p e =
    subst (λ (q : Option Parsed). fits q) e (length-answer_bytes w.time ct a)
  where
    fits : Option Parsed → Type 0
    fits none = Unit
    fits (some q) = length q.out ≡ q.ret

-- Whatever the command, if `parse_cmd` returns, the length that it returns is that of the answer it
-- has written.
pub parse_cmd-length :
    (w : World) (ct : ℕ) (line : List ℕ) (v : Device) (p : Parsed)
    → parse_cmd w ct line v ≡ some p
    → length p.out ≡ p.ret
unfolding parse_cmd
parse_cmd-length w ct line v p e = respond-length w ct _ _ p e
