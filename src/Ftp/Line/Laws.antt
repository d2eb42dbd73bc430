-- ===== src/Ftp/Line/Laws.antt =====
-- `readLine` gives the lines of the stream, however it comes in pieces.
use esp_fmb.Prelude.{
  take-le, ℕ, ◌+◌, ◌-◌, ◌≤◌, ◌≡◌, refl, sym, ap, ◌∙◌, subst, inl, inr, List, [], ◌∷◌, ◌++◌, length,
  length-append, append_assoc, arith,
}
use esp_fmb.Prelude.Int.{pos}
use esp_fmb.Ftp.Buf.{Recv, got, buffer_size}
use esp_fmb.Ftp.Line.{ended, wants, take_in, LineRead, line_read, resume, read_line}
use esp_fmb.Ftp.Line.Pieces.{
  joined, Pieces, pieces, OneLine, where_end, before_crlf-end, take_in-found, take_in-all,
}

-- The line that is read, and what is left.
abbrev pub ReadsLine : LineRead → List ℕ → List ℕ → List Recv → Type 0
ReadsLine r text tail more =
    (avail : List ℕ) × (cs : List (List ℕ)) × (r
      ≡ line_read (record {
        ret = pos (length text + 1);
        out = text ++ 10 ∷ 0 ∷ 0 ∷ [];
        avail = avail;
        recvs = pieces cs more;
      }))
    × (avail ++ joined cs ≡ tail)
    × Pieces cs

OneLine-drop : (xs ys : List ℕ) → OneLine (xs ++ ys) → OneLine ys
OneLine-drop [] ys h = h
OneLine-drop (x ∷ xs) ys h = OneLine-drop xs ys h.1

resume-end :
    (recvs : List Recv) (line text a : List ℕ)
    → line ≡ text ++ 13 ∷ 10 ∷ []
    → resume (ended line a) recvs
      ≡ line_read (record {
        ret = pos (length text + 1);
        out = text ++ 10 ∷ 0 ∷ 0 ∷ [];
        avail = a;
        recvs = recvs;
      })
unfolding resume
resume-end recvs line text a e =
    let n : length (text ++ 13 ∷ 10 ∷ []) - 1 ≡ length text + 1 =
      omega (arith, length-append text (13 ∷ 10 ∷ [])) in
    rw (e, before_crlf-end text, n) refl

resume-found :
    (max : ℕ) (line avail : List ℕ) (cs : List (List ℕ)) (rest text tail : List ℕ)
    (more : List Recv)
    → line ++ rest ≡ text ++ 13 ∷ []
    → OneLine rest
    → Pieces cs
    → length rest + 2 ≤ max
    → (a : List ℕ) → avail ≡ rest ++ 10 ∷ a
    → a ++ joined cs ≡ tail
    → ReadsLine (resume (take_in max line avail) (pieces cs more)) text tail more
resume-found max line avail cs rest text tail more e o p k a f g =
    let whole : line ++ (rest ++ 10 ∷ []) ≡ text ++ 13 ∷ 10 ∷ [] =
      sym (append_assoc line rest (10 ∷ []))
      ∙ ap (λ l. l ++ 10 ∷ []) e
      ∙ append_assoc text (13 ∷ []) (10 ∷ []) in
    (
      a,
      cs,
      rw (f, take_in-found max line rest a o k)
          (resume-end (pieces cs more) (line ++ (rest ++ 10 ∷ [])) text a whole),
      g,
      p,
    )

resume-wants :
    (max : ℕ) (line : List ℕ) (b : ℕ) (bs : List ℕ) (recvs : List Recv)
    → length (b ∷ bs) ≤ buffer_size
    → resume (wants line max) (got (b ∷ bs) ∷ recvs) ≡ resume (take_in max line (b ∷ bs)) recvs
unfolding resume
resume-wants max line b bs recvs h =
    ap (λ l. resume (take_in max line l) recvs) (take-le buffer_size (b ∷ bs) h)

resume-line :
    (max : ℕ) (line avail : List ℕ) (cs : List (List ℕ)) (rest text tail : List ℕ)
    (more : List Recv)
    → line ++ rest ≡ text ++ 13 ∷ []
    → avail ++ joined cs ≡ rest ++ 10 ∷ tail
    → OneLine rest
    → Pieces cs
    → length rest + 2 ≤ max
    → ReadsLine (resume (take_in max line avail) (pieces cs more)) text tail more
resume-line max line avail [] rest text tail more e b o p k =
    elim (where_end avail [] rest tail b) [
      | inl (a, f, g) ↦ resume-found max line avail [] rest text tail more e o p k a f g
      | inr (r, f, g) ↦ absurd (omega (arith, length-append r (10 ∷ tail), ap length g))
    ]
resume-line max line avail ([] ∷ cs) rest text tail more e b o p k = absurd (omega arith)
resume-line max line avail ((c ∷ s) ∷ cs) rest text tail more e b o p k =
    elim (where_end avail (joined ((c ∷ s) ∷ cs)) rest tail b) [
      | inl (a, f, g) ↦ resume-found max line avail ((c ∷ s) ∷ cs) rest text tail more e o p k a f g
      | inr (r, f, g) ↦
          let n : length rest ≡ length avail + length r = ap length f ∙ length-append avail r in
          rw
            (
              take_in-all max line avail r (subst OneLine f o) (omega arith),
              resume-wants (max - length avail) (line ++ avail) c s (pieces cs more) p.1,
            )
            (resume-line (max - length avail) (line ++ avail) (c ∷ s) cs r text tail more
              (append_assoc line avail r ∙ ap (λ l. line ++ l) (sym f) ∙ e) g
              (OneLine-drop avail r (subst OneLine f o)) p.2 (omega arith))
    ]

OneLine-cr : (text : List ℕ) → OneLine text → OneLine (text ++ 13 ∷ [])
OneLine-cr [] h = (ground arith, tt)
OneLine-cr (c ∷ text) h = (h.0, OneLine-cr text h.1)

-- A line that is on its way and ends in CR and LF is read whole, with LF at its end and its length
-- with LF as the value, however the stream comes in pieces, if three bytes more than the line fit
-- into the buffer; what follows the line stays to be read.
pub read_line-line :
    (max : ℕ) (avail : List ℕ) (cs : List (List ℕ)) (text tail : List ℕ) (more : List Recv)
    → avail ++ joined cs ≡ text ++ 13 ∷ 10 ∷ tail
    → OneLine text
    → Pieces cs
    → length text + 3 ≤ max
    → ReadsLine (read_line max avail (pieces cs more)) text tail more
unfolding read_line
read_line-line max avail cs text tail more b o p k =
    resume-line max [] avail cs (text ++ 13 ∷ []) text tail more refl
      (b ∙ sym (append_assoc text (13 ∷ []) (10 ∷ tail))) (OneLine-cr text o) p
      (omega (arith, length-append text (13 ∷ [])))
