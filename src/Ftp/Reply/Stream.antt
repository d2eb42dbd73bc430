-- ===== src/Ftp/Reply/Stream.antt =====
-- `readResponse` reads one reply of the stream, of one line or of many.
use esp_fmb.Prelude.{
  ℕ, ◌+◌, ◌≤◌, ◌≡◌, ◌≢◌, refl, ap, ◌∙◌, true, false, some, List, [], ◌∷◌, ◌++◌, length, drop,
  length-append, append_assoc, arith, ◌==◌, get_or,
}
use esp_fmb.Prelude.Text.{starts_with}
use esp_fmb.Ftp.Buf.{Recv, Ctl, response_size}
use esp_fmb.Ftp.Line.Pieces.{joined, pieces, Pieces, OneLine}
use esp_fmb.Ftp.Line.Measure.{left_in}
use esp_fmb.Ftp.Reply.{
  strncpy3, matched, reply_lines, first_is, lines_left, after_lines, after_first, if_many,
  read_response,
}
use esp_fmb.Ftp.Reply.Wire.{
  at_stream, held, wire, Reads, next_line-line, Between, Plain, reply_lines-read,
}

-- A reply: one line, with four bytes before its text, or lines from one with the code and `-` to one
-- with the code and a space.
pub data Reply : Type 0 where
  one : ℕ → ℕ → ℕ → ℕ → List ℕ → Reply
  many : ℕ → ℕ → ℕ → List ℕ → List (List ℕ) → List ℕ → Reply

abbrev pub last_line : Reply → List ℕ
last_line (one a b c d t) = a ∷ b ∷ c ∷ d ∷ t
last_line (many a b c t mids u) = a ∷ b ∷ c ∷ 32 ∷ u

abbrev pub reply_wire : Reply → List ℕ → List ℕ
reply_wire (one a b c d t) tail = a ∷ b ∷ c ∷ d ∷ (t ++ 13 ∷ 10 ∷ tail)
reply_wire (many a b c t mids u) tail =
    a ∷ b ∷ c ∷ b'-' ∷ (t ++ 13 ∷ 10 ∷ (wire mids ++ (a ∷ b ∷ c ∷ 32 ∷ (u ++ 13 ∷ 10 ∷ tail))))

-- The lines fit into the array, the code has no 0 and no line end, and of the lines between the
-- first and the last none begins with the code and a space.
abbrev pub Fits : List ℕ → Type 0
Fits l = OneLine l × (length l + 3 ≤ response_size)

abbrev pub IsReply : Reply → Type 0
IsReply (one a b c d t) = (d ≢ b'-') × Fits (a ∷ b ∷ c ∷ d ∷ t)
IsReply (many a b c t mids u) =
    Plain (a ∷ b ∷ c ∷ 32 ∷ [])
    × Fits (a ∷ b ∷ c ∷ b'-' ∷ t)
    × Between (a ∷ b ∷ c ∷ 32 ∷ []) mids
    × Fits (a ∷ b ∷ c ∷ 32 ∷ u)

strncpy3-code : (a b c : ℕ) (s : List ℕ) → a ≢ 0 → b ≢ 0 → strncpy3 (a ∷ b ∷ c ∷ s) ≡ a ∷ b ∷ c ∷ []
strncpy3-code a b c s h k =
    let e : (a == 0) ≡ false = ground arith in
    let f : (b == 0) ≡ false = ground arith in rw (e, f) refl

pub left_in-joined :
    (cs : List (List ℕ)) (more : List Recv) → length (joined cs) ≤ left_in (pieces cs more)
left_in-joined [] more = omega arith
left_in-joined (c ∷ cs) more = omega (arith, length-append c (joined cs), left_in-joined cs more)

length-wire : (mids : List (List ℕ)) (s : List ℕ) → length mids ≤ length (wire mids ++ s)
length-wire [] s = omega arith
length-wire (l ∷ mids) s = omega (
  arith,
  ap length (append_assoc l (13 ∷ 10 ∷ wire mids) s),
  length-append l (13 ∷ 10 ∷ (wire mids ++ s)),
  length-wire mids s,
)

starts_with_self : (m u : List ℕ) → starts_with m (m ++ u) ≡ true
starts_with_self [] u = refl
starts_with_self (x ∷ m) u =
    let e : (x == x) ≡ true = ground arith in rw (e, starts_with_self m u) refl

after-one :
    (ch : ℕ) (c : Ctl)
    → (get_or c.response 3 0 == 45) ≡ false
    → after_first ch (some (true, c)) ≡ some (first_is ch c, c)
after-one ch c e = rw e refl

after-many :
    (ch : ℕ) (c d : Ctl) (code : List ℕ)
    → (get_or c.response 3 0 == 45) ≡ true
    → strncpy3 c.response ≡ code
    → reply_lines (lines_left c) (code ++ 32 ∷ []) c ≡ matched d
    → after_first ch (some (true, c)) ≡ some (first_is ch d, d)
after-many ch c d code e f g =
    ap
      (λ b.
        if_many b (after_lines ch (reply_lines (lines_left c) (strncpy3 c.response ++ 32 ∷ []) c))
          (some (first_is ch c, c)))
      e
    ∙ ap (λ m. after_lines ch (reply_lines (lines_left c) (m ++ 32 ∷ []) c)) f
    ∙ ap (after_lines ch) g

-- Whole replies that are on their way are read one by one, however the stream comes in pieces: a call
-- takes the lines of a reply to its last and no byte behind, tells whether the code begins with the
-- digit asked for, and leaves the last line in `response`.
pub read_response-reply :
    (ch : ℕ) (k : Ctl) (avail : List ℕ) (cs : List (List ℕ)) (more : List Recv) (old : List ℕ)
    (r : Reply) (tail : List ℕ)
    → IsReply r
    → avail ++ joined cs ≡ reply_wire r tail
    → Pieces cs
    → (resp : List ℕ) × Reads
        (λ d.
          read_response ch (at_stream k avail cs more old)
          ≡ some (get_or (last_line r) 0 0 == ch, d))
        tail
        k
        more
        (held (last_line r) resp)
unfolding read_response
read_response-reply ch k avail cs more old (one a b c d t) tail (n, fit) e p =
    let (x, ds, f, e', p') =
      next_line-line k avail cs more old (a ∷ b ∷ c ∷ d ∷ t) tail e fit.0 p fit.1 in
    let z : Ctl = at_stream k x ds more (held (a ∷ b ∷ c ∷ d ∷ t) old) in
    (old, (x, ds, ap (after_first ch) f ∙ after-one ch z (ground arith), e', p'))
read_response-reply ch k avail cs more old (many a b c t mids u) tail (pl, fit, bt, fit') e p =
    let code = a ∷ b ∷ c ∷ 32 ∷ [] in
    let last = a ∷ b ∷ c ∷ 32 ∷ u in
    let first = a ∷ b ∷ c ∷ 45 ∷ t in
    let rest = wire mids ++ (last ++ 13 ∷ 10 ∷ tail) in
    let (x, ds, f, e', p') = next_line-line k avail cs more old first rest e fit.0 p fit.1 in
    let z : Ctl = at_stream k x ds more (held first old) in
    let (resp, (x', ds', g, e2, p2)) =
      reply_lines-read (lines_left z) code k x ds more (held first old) mids last tail refl pl
        (omega (
          arith,
          length-append x (joined ds),
          ap length e',
          left_in-joined ds more,
          length-wire mids (last ++ 13 ∷ 10 ∷ tail),
        ))
        e' bt fit'.0 fit'.1 (starts_with_self code u) p' in
    let w : Ctl = at_stream k x' ds' more (held last resp) in
    (
      resp,
      (
        x',
        ds',
        ap (after_first ch) f
            ∙ after-many ch z w (a ∷ b ∷ c ∷ []) refl
                (strncpy3-code a b c
                  (45 ∷ (t ++ 10 ∷ 0 ∷ 0 ∷ [] ++ drop (length (first ++ 10 ∷ 0 ∷ 0 ∷ [])) old)) pl.0
                  pl.2.0)
                g,
        e2,
        p2,
      ),
    )
