-- ===== src/Ftp/Copy/Lines.antt =====
-- A download for text writes the lines of the stream, with LF at their ends.
use esp_fmb.Prelude.{
  ℕ, zero, suc, ◌+◌, ◌≤◌, ◌<◌, ◌≡◌, refl, sym, ap, ap₂, ◌∙◌, Bool, true, some, List, [], ◌∷◌, ◌++◌,
  arith, length-append, append_assoc, append-nil, take, length,
}
use esp_fmb.Ftp.Buf.{reading, NetBuf, Recv, got, buffer_size}
use esp_fmb.Ftp.Line.{read_line, resume, take_in, taken}
use esp_fmb.Ftp.Line.Measure.{pending}
use esp_fmb.Ftp.World.{World}
use esp_fmb.Ftp.Access.{file_read}
use esp_fmb.Ftp.Copy.{line_chunk, read_client, Copied, copied, in_round, copy_in, copy}
use esp_fmb.Ftp.Line.Pieces.{joined, pieces, Pieces, OneLine}
use esp_fmb.Ftp.Line.Laws.{read_line-line}
use esp_fmb.Ftp.Reply.Stream.{left_in-joined}
use esp_fmb.Ftp.Reply.Wire.{wire}

-- The connection for reading text with these bytes and answers to come.
abbrev pub at_data : NetBuf → List ℕ → List Recv → NetBuf
at_data b avail recvs = record b { dir = reading; text = true; avail = avail; recvs = recvs }

-- So many calls succeed.
abbrev pub yes : ℕ → List Bool → List Bool
yes zero l = l
yes (suc n) l = true ∷ yes n l

abbrev pub lf : List (List ℕ) → List ℕ
lf [] = []
lf (l ∷ ls) = l ++ 10 ∷ [] ++ lf ls

abbrev pub TextLines : List (List ℕ) → Type 0
TextLines [] = Unit
TextLines (l ∷ ls) = OneLine l × (length l + 3 ≤ buffer_size) × TextLines ls

take-line : (l : List ℕ) → take (length l + 1) (l ++ 10 ∷ 0 ∷ 0 ∷ []) ≡ l ++ 10 ∷ []
take-line [] = refl
take-line (x ∷ l) =
    let e : suc (length l) + 1 ≡ suc (length l + 1) = omega arith in
    ap (λ n. take n (x ∷ (l ++ 10 ∷ 0 ∷ 0 ∷ []))) e ∙ ap (◌∷◌ x) (take-line l)

read_client-line :
    (b : NetBuf) (avail : List ℕ) (cs : List (List ℕ)) (more : List Recv) (l tail : List ℕ)
    → avail ++ joined cs ≡ l ++ 13 ∷ 10 ∷ tail
    → OneLine l
    → Pieces cs
    → length l + 3 ≤ buffer_size
    → (a : List ℕ) × (ds : List (List ℕ)) × (read_client (at_data b avail (pieces cs more))
        ≡ some (l ++ 10 ∷ [], at_data b a (pieces ds more)))
      × (a ++ joined ds ≡ tail)
      × Pieces ds
unfolding read_client
read_client-line b avail cs more l tail e o p k =
    let (a, ds, f, e', p') = read_line-line buffer_size avail cs l tail more e o p k in
    (
      a,
      ds,
      ap (line_chunk (at_data b avail (pieces cs more))) f
          ∙ ap (λ t. some (t, at_data b a (pieces ds more))) (take-line l),
      e',
      p',
    )

in_round-kept :
    (t : List ℕ) (b : NetBuf) (w : World) (l : List Bool) (s : List ℕ)
    (more : NetBuf → World → Copied)
    → 1 ≤ length t
    → in_round (some (t, b)) (record w { answers = true ∷ l; file = some s }) more
      ≡ more b (record w { answers = l; file = some (s ++ t) })
in_round-kept [] b w l s more h = absurd (omega arith)
in_round-kept (c ∷ t) b w l s more h = refl

nothing-left :
    (avail : List ℕ) (cs : List (List ℕ))
    → avail ++ joined cs ≡ []
    → Pieces cs
    → (avail ≡ []) × (cs ≡ [])
nothing-left [] [] e p = (refl, refl)
nothing-left [] (c ∷ cs) e p = absurd (omega (arith, length-append c (joined cs), ap length e, p.0))
nothing-left (x ∷ avail) cs e p = absurd (omega (arith, ap length e))

read_client-end :
    (b : NetBuf) (more : List Recv)
    → read_client (at_data b [] (got [] ∷ more)) ≡ some ([], at_data b [] more)
unfolding read_client read_line resume take_in taken
read_client-end b more = refl

copy_in-lines :
    (ls : List (List ℕ)) (n : ℕ) (b : NetBuf) (avail : List ℕ) (cs : List (List ℕ))
    (more : List Recv) (w : World) (l : List Bool) (s : List ℕ)
    → length ls < n
    → avail ++ joined cs ≡ wire ls
    → Pieces cs
    → TextLines ls
    → copy_in n
        (at_data b avail (pieces cs (got [] ∷ more)))
        (record w { answers = yes (length ls) l; file = some s })
      ≡ copied true (at_data b [] more) (record w { answers = l; file = some (s ++ lf ls) })
unfolding copy_in
copy_in-lines ls zero b avail cs more w l s h e p t = absurd (omega arith)
copy_in-lines [] (suc n) b avail cs more w l s h e p t =
    let (x, y) = nothing-left avail cs e p in
    let v : World = record w { answers = l; file = some s } in
    ap₂ (λ a ds. in_round (read_client (at_data b a (pieces ds (got [] ∷ more)))) v (copy_in n)) x y
    ∙ ap (λ c. in_round c v (copy_in n)) (read_client-end b more)
    ∙ ap (λ z. copied true (at_data b [] more) (record w { answers = l; file = some z }))
        (sym (append-nil s))
copy_in-lines (t ∷ ls) (suc n) b avail cs more w l s h e p (o, k, r) =
    let (a, ds, f, e', p') = read_client-line b avail cs (got [] ∷ more) t (wire ls) e o p k in
    let v : World = record w { answers = true ∷ yes (length ls) l; file = some s } in
    let d : NetBuf = at_data b a (pieces ds (got [] ∷ more)) in
    ap (λ c. in_round c v (copy_in n)) f
    ∙ in_round-kept (t ++ 10 ∷ []) d w (yes (length ls) l) s (copy_in n)
        (omega (arith, length-append t (10 ∷ [])))
    ∙ copy_in-lines ls n b a ds more w l (s ++ (t ++ 10 ∷ [])) (omega arith) e' p' r
    ∙ ap (λ z. copied true (at_data b [] more) (record w { answers = l; file = some z }))
        (append_assoc s (t ++ 10 ∷ []) (lf ls))

length-wire : (ls : List (List ℕ)) → length ls ≤ length (wire ls)
length-wire [] = omega arith
length-wire (l ∷ ls) = omega (arith, length-append l (13 ∷ 10 ∷ wire ls), length-wire ls)

-- A download for text of lines that end in CR and LF, however they come in pieces, to the end of the
-- stream, writes the lines with LF at their ends behind what stands in the file and is successful. No
-- line is longer than three bytes less than the buffer, and every write to the file succeeds.
pub copy-lines :
    (ls : List (List ℕ)) (b : NetBuf) (cs : List (List ℕ)) (more : List Recv) (w : World)
    (l : List Bool) (s : List ℕ)
    → joined cs ≡ wire ls
    → Pieces cs
    → TextLines ls
    → copy file_read
        (at_data b [] (pieces cs (got [] ∷ more)))
        (record w { answers = yes (length ls) l; file = some s })
      ≡ copied true (at_data b [] more) (record w { answers = l; file = some (s ++ lf ls) })
copy-lines ls b cs more w l s e p t =
    copy_in-lines ls (suc (pending [] (pieces cs (got [] ∷ more)))) b [] cs more w l s
      (omega (arith, length-wire ls, ap length e, left_in-joined cs (got [] ∷ more))) e p t
