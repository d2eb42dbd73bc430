-- ===== src/Ftp/Reply/Wire.antt =====
-- The lines of a reply in the stream, read by `readResponse`.
use esp_fmb.Prelude.{
  ℕ, zero, suc, ◌+◌, ◌≤◌, ◌<◌, ◌≡◌, ◌≢◌, refl, sym, ap, ap₂, ◌∙◌, inl, inr, Bool, true, false,
  Option, some, List, [], ◌∷◌, ◌++◌, length, drop, append_assoc, arith, ◌==◌, overlay, Bool-cases,
}
use esp_fmb.Prelude.Text.{starts_with}
use esp_fmb.Ftp.Buf.{Recv, Ctl, response_size}
use esp_fmb.Ftp.Line.Pieces.{joined, pieces, Pieces, OneLine}
use esp_fmb.Ftp.Line.Laws.{read_line-line}
use esp_fmb.Ftp.Reply.{
  strncmp_eq, stored, next_line, Lines, matched, until_match, round, reply_lines,
}

-- The connection with these bytes at hand, these answers to come and this text in `response`.
abbrev pub at_stream : Ctl → List ℕ → List (List ℕ) → List Recv → List ℕ → Ctl
at_stream c avail cs more response = record c {
  buf = record c.buf { avail = avail; recvs = pieces cs more };
  response = response;
}

-- The array after a line was read into it.
abbrev pub held : List ℕ → List ℕ → List ℕ
held text old = overlay (text ++ b'\n' ∷ 0 ∷ 0 ∷ []) old

-- What stands in the stream for a line, and for lines.
abbrev pub wire : List (List ℕ) → List ℕ
wire [] = []
wire (l ∷ ls) = l ++ 13 ∷ 10 ∷ wire ls

abbrev pub Reads : (Ctl → Type 0) → List ℕ → Ctl → List Recv → List ℕ → Type 0
Reads p tail c more response =
    (avail : List ℕ) × (cs : List (List ℕ)) × p (at_stream c avail cs more response)
    × (avail ++ joined cs ≡ tail)
    × Pieces cs

pub next_line-line :
    (c : Ctl) (avail : List ℕ) (cs : List (List ℕ)) (more : List Recv) (old text tail : List ℕ)
    → avail ++ joined cs ≡ text ++ 13 ∷ 10 ∷ tail
    → OneLine text
    → Pieces cs
    → length text + 3 ≤ response_size
    → Reads
        (λ d. next_line (at_stream c avail cs more old) ≡ some (true, d))
        tail
        c
        more
        (held text old)
unfolding next_line
next_line-line c avail cs more old text tail b o p k =
    let (avail', cs', e, b', p') = read_line-line response_size avail cs text tail more b o p k in
    (avail', cs', ap (stored (at_stream c avail cs more old)) e, b', p')

-- The lines between the first and the last.
abbrev pub Between : List ℕ → List (List ℕ) → Type 0
Between m [] = Unit
Between m (l ∷ ls) =
    OneLine l × (length l + 3 ≤ response_size) × (starts_with m l ≡ false) × Between m ls

-- No byte is 0 or 10.
abbrev pub Plain : List ℕ → Type 0
Plain [] = Unit
Plain (c ∷ s) = (c ≢ 0) × (c ≢ 10) × Plain s

strncmp_eq-line :
    (m t z : List ℕ) → Plain m → strncmp_eq (length m) (t ++ 10 ∷ z) m ≡ starts_with m t
unfolding strncmp_eq
strncmp_eq-line [] t z h = refl
strncmp_eq-line (p ∷ m) [] z h = let e : (10 == p) ≡ false = ground arith in rw e refl
strncmp_eq-line (p ∷ m) (x ∷ t) z h = elim (Bool-cases (x == p)) [
  | inl e ↦
      let n : (x == 0) ≡ false = ground arith in
      let f : (p == x) ≡ true = ground arith in rw (e, n, f) (strncmp_eq-line m t z h.2)
  | inr e ↦ let f : (p == x) ≡ false = ground arith in rw (e, f) refl
]

held-starts :
    (m t old : List ℕ) → length m ≡ 4 → Plain m → strncmp_eq 4 (held t old) m ≡ starts_with m t
held-starts m t old four h =
    let rest = drop (length (t ++ 10 ∷ 0 ∷ 0 ∷ [])) old in
    ap₂ (λ n s. strncmp_eq n s m) (sym four) (append_assoc t (10 ∷ 0 ∷ 0 ∷ []) rest)
    ∙ strncmp_eq-line m t (0 ∷ 0 ∷ rest) h

round-line :
    (m : List ℕ) (o : Option (Bool × Ctl)) (d : Ctl) (b : Bool) (more : Ctl → Lines)
    → o ≡ some (true, d)
    → strncmp_eq 4 d.response m ≡ b
    → round m o more ≡ until_match b d (more d)
round-line m o d b more e f = ap (λ o. round m o more) e ∙ ap (λ b. until_match b d (more d)) f

pub reply_lines-read :
    (n : ℕ) (m : List ℕ) (c : Ctl) (avail : List ℕ) (cs : List (List ℕ)) (more : List Recv)
    (old : List ℕ) (mids : List (List ℕ)) (text tail : List ℕ)
    → length m ≡ 4
    → Plain m
    → length mids < n
    → avail ++ joined cs ≡ wire mids ++ (text ++ 13 ∷ 10 ∷ tail)
    → Between m mids
    → OneLine text
    → length text + 3 ≤ response_size
    → starts_with m text ≡ true
    → Pieces cs
    → (resp : List ℕ) × Reads
        (λ d. reply_lines n m (at_stream c avail cs more old) ≡ matched d)
        tail
        c
        more
        (held text resp)
unfolding reply_lines
reply_lines-read zero m c avail cs more old mids text tail four pl n b bt o k s p =
    absurd (omega arith)
reply_lines-read (suc n) m c avail cs more old [] text tail four pl h b bt o k s p =
    let (a, ds, e, b', p') = next_line-line c avail cs more old text tail b o p k in
    let d : Ctl = at_stream c a ds more (held text old) in
    (
      old,
      (
        a,
        ds,
        round-line m (next_line (at_stream c avail cs more old)) d true (reply_lines n m) e
            (held-starts m text old four pl ∙ s),
        b',
        p',
      ),
    )
reply_lines-read (suc n) m c avail cs more old (l ∷ mids) text tail four pl h b bt o k s p =
    let (ol, kl, sl, bt') = bt in
    let b1 : avail ++ joined cs ≡ l ++ 13 ∷ 10 ∷ (wire mids ++ (text ++ 13 ∷ 10 ∷ tail)) =
      b ∙ append_assoc l (13 ∷ 10 ∷ wire mids) (text ++ 13 ∷ 10 ∷ tail) in
    let (a, ds, e, b2, p2) =
      next_line-line c avail cs more old l (wire mids ++ (text ++ 13 ∷ 10 ∷ tail)) b1 ol p kl in
    let d : Ctl = at_stream c a ds more (held l old) in
    let (resp, (a', ds', f, b3, p3)) =
      reply_lines-read n m c a ds more (held l old) mids text tail four pl (omega arith) b2 bt' o k
        s p2 in
    (
      resp,
      (
        a',
        ds',
        round-line m (next_line (at_stream c avail cs more old)) d false (reply_lines n m) e
              (held-starts m l old four pl ∙ sl)
            ∙ f,
        b3,
        p3,
      ),
    )
