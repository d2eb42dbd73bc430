-- ===== src/Ftp/Write/Laws.antt =====
-- `writeLine` sends the text with its line ends as CR and LF.
use esp_fmb.Prelude.{
  ℕ, suc, ◌≡◌, refl, sym, ap, ◌∙◌, Bool, true, false, not, ◌&&◌, Option, none, some, List, [], ◌∷◌,
  ◌++◌, ◌==◌, length, inl, inr, Bool-cases, arith, append_assoc, append-nil, take, take-le,
  if◌then◌else◌, subst, min,
}
use esp_fmb.Ftp.Buf.{control, reading, writing, Dir, NetBuf, send, send_some, buffer_size}
use esp_fmb.Ftp.Write.{
  Held, sent_all, flush, if_full, appended, put, put_all, send_rest, counted, if_writing,
  write_line,
}

-- All that was sent.
abbrev pub flat : List (List ℕ) → List ℕ
flat [] = []
flat (x ∷ xs) = flat xs ++ x

-- The text with CR before each LF that does not follow one.
abbrev pub crlf : ℕ → List ℕ → List ℕ
crlf last [] = []
crlf last (c ∷ s) =
    let rest = crlf c s in
    if (c == b'\n') && not (last == b'\r') then b'\r' ∷ c ∷ rest else c ∷ rest

-- Nothing is lost: what was sent and what is in the buffer are `s`.
abbrev pub Holds : List ℕ → Held → Type 0
Holds s (none, b) = Unit
Holds s (some held, b) = flat b.sent ++ held ≡ s

sent_all-Holds :
    (n : ℕ) (ns held s : List ℕ) (b : NetBuf)
    → flat b.sent ++ held ≡ s
    → Holds s (
        sent_all
          (min n (length held) == length held)
          (record b { sends = ns; sent = take n held ∷ b.sent }))
sent_all-Holds n ns held s b h = elim (Bool-cases (min n (length held) == length held)) [
  | inl e ↦ rw e (
      append-nil (flat b.sent ++ take n held)
      ∙ ap (λ t. flat b.sent ++ t) (take-le n held (ground arith))
      ∙ h)
  | inr e ↦ rw e tt
]

flushed-Holds :
    (ns held s : List ℕ) (b : NetBuf)
    → flat b.sent ++ held ≡ s
    → Holds s (sent_all ((send_some held ns b).0 == length held) (send_some held ns b).1)
flushed-Holds [] [] s b h = h
flushed-Holds [] (c ∷ held) s b h =
    let e : (0 == suc (length held)) ≡ false = ground arith in rw e tt
flushed-Holds (n ∷ ns) held s b h = sent_all-Holds n ns held s b h

flush-Holds : (held s : List ℕ) (b : NetBuf) → flat b.sent ++ held ≡ s → Holds s (flush held b)
unfolding flush
flush-Holds held s b h = flushed-Holds b.sends held s b h

if_full-Holds :
    (t : Bool) (held s : List ℕ) (b : NetBuf) → flat b.sent ++ held ≡ s → Holds s (if_full t held b)
if_full-Holds true held s b h = flush-Holds held s b h
if_full-Holds false held s b h = h

appended-Holds : (c : ℕ) (s : List ℕ) (h : Held) → Holds s h → Holds (s ++ c ∷ []) (appended c h)
appended-Holds c s (none, b) k = tt
appended-Holds c s (some held, b) k =
    sym (append_assoc (flat b.sent) held (c ∷ [])) ∙ ap (λ t. t ++ c ∷ []) k

put-Holds : (c : ℕ) (s : List ℕ) (h : Held) → Holds s h → Holds (s ++ c ∷ []) (put c h)
put-Holds c s (none, b) k = tt
put-Holds c s (some held, b) k =
    appended-Holds c s (if_full (length held == buffer_size) held b)
      (if_full-Holds (length held == buffer_size) held s b k)

put_all-Holds :
    (last : ℕ) (t s : List ℕ) (h : Held) → Holds s h → Holds (s ++ crlf last t) (put_all last t h)
unfolding put_all
put_all-Holds last [] s h k = subst (λ z. Holds z h) (sym (append-nil s)) k
put_all-Holds last (c ∷ t) s h k = elim (Bool-cases ((c == 10) && not (last == 13))) [
  | inl e ↦ rw e (
      subst (λ z. Holds z (put_all c t (put c (put 13 h))))
        (append_assoc (s ++ 13 ∷ []) (c ∷ []) (crlf c t) ∙ append_assoc s (13 ∷ []) (c ∷ crlf c t))
        (put_all-Holds c t (s ++ 13 ∷ [] ++ c ∷ []) (put c (put 13 h))
          (put-Holds c (s ++ 13 ∷ []) (put 13 h) (put-Holds 13 s h k))))
  | inr e ↦ rw e (
      subst (λ z. Holds z (put_all c t (put c h))) (append_assoc s (c ∷ []) (crlf c t))
        (put_all-Holds c t (s ++ c ∷ []) (put c h) (put-Holds c s h k)))
]

send_rest-Holds : (s : List ℕ) (h : Held) → Holds s h → Holds s (send_rest h)
send_rest-Holds s (none, b) k = tt
send_rest-Holds s (some [], b) k = k
send_rest-Holds s (some (c ∷ held), b) k = flush-Holds (c ∷ held) s b k

-- Nothing is left in the buffer.
abbrev Empty : Held → Type 0
Empty (none, b) = Unit
Empty (some held, b) = held ≡ []

sent_all-Empty : (t : Bool) (b : NetBuf) → Empty (sent_all t b)
sent_all-Empty true b = refl
sent_all-Empty false b = tt

send_rest-Empty : (h : Held) → Empty (send_rest h)
unfolding flush
send_rest-Empty (none, b) = tt
send_rest-Empty (some [], b) = refl
send_rest-Empty (some (c ∷ held), b) =
    sent_all-Empty ((send (c ∷ held) b).0 == length (c ∷ held)) (send (c ∷ held) b).1

counted-sent :
    (k n : ℕ) (s : List ℕ) (h : Held) (d : NetBuf)
    → Holds s h
    → Empty h
    → counted k h ≡ (some n, d)
    → (n ≡ k) × (flat d.sent ≡ s)
counted-sent k n s (none, b) d h m e = cc e
counted-sent k n s (some held, b) d h m e =
    let x : k ≡ n = cc e in
    let y : b ≡ d = cc e in
    (
      sym x,
      ap (λ (z : NetBuf). flat z.sent) (sym y)
          ∙ sym (append-nil (flat b.sent))
          ∙ ap (λ z. flat b.sent ++ z) (sym m)
          ∙ h,
    )

if_writing-some :
    (i : Dir) (r : Option ℕ × NetBuf) (b : NetBuf) (n : ℕ) (d : NetBuf)
    → if_writing i r b ≡ (some n, d)
    → r ≡ (some n, d)
if_writing-some control r b n d e = cc e
if_writing-some reading r b n d e = cc e
if_writing-some writing r b n d e = e

-- Whatever the network takes, a call that does not give -1 has given the length of the text, and has
-- sent, behind what was sent before, the text with CR before each LF that follows no CR, and no more.
pub write_line-crlf :
    (s : List ℕ) (b : NetBuf) (n : ℕ) (d : NetBuf)
    → write_line s b ≡ (some n, d)
    → (n ≡ length s) × (flat d.sent ≡ flat b.sent ++ crlf 0 s)
unfolding write_line
write_line-crlf s b n d e =
    let h = put_all 0 s (some [], b) in
    counted-sent (length s) n (flat b.sent ++ crlf 0 s) (send_rest h) d
      (send_rest-Holds (flat b.sent ++ crlf 0 s) h
        (put_all-Holds 0 s (flat b.sent) (some [], b) (append-nil (flat b.sent))))
      (send_rest-Empty h) (if_writing-some b.dir (counted (length s) (send_rest h)) b n d e)
