-- ===== src/Ftp/Reply/Laws.antt =====
-- `readResponse` reads one reply, of one line or of many.
use esp_fmb.Prelude.{
  ℕ, zero, suc, ◌<◌, ◌≡◌, ◌≢◌, refl, subst, inl, inr, Bool, true, false, Option, none, some, List,
  arith, Bool-cases,
}
use esp_fmb.Prelude.Int.{ℤ, pos, negsuc}
use esp_fmb.Ftp.Buf.{Ctl, response_size}
use esp_fmb.Ftp.Line.{LineRead, line_read, overflow, read_line}
use esp_fmb.Ftp.Line.Measure.{pending, Shrinks, read_line-Shrinks}
use esp_fmb.Ftp.Reply.{
  strncmp_eq, with_line, is_read, stored, next_line, Lines, endless, round, reply_lines, lines_left,
}

abbrev lines_of : Ctl → ℕ
lines_of c = pending c.buf.avail c.buf.recvs

is_read-not : (z : ℤ) → is_read z ≡ true → z ≢ negsuc 0
is_read-not (pos n) e = λ f. cc f
is_read-not (negsuc n) e = λ f. cc e

stored-Shrinks :
    (c d : Ctl) (r : LineRead) (n : ℕ) → Shrinks n r → stored c r ≡ some (true, d) → lines_of d < n
stored-Shrinks c d overflow n h e = cc e
stored-Shrinks c d (line_read l) n h e =
    let a : is_read l.ret ≡ true = cc e in
    let b : with_line c l ≡ d = cc e in subst (λ x. lines_of x < n) b (h (is_read-not l.ret a))

next_line-Shrinks : (c d : Ctl) → next_line c ≡ some (true, d) → lines_of d < lines_of c
unfolding next_line
next_line-Shrinks c d e =
    stored-Shrinks c d (read_line response_size c.buf.avail c.buf.recvs) (lines_of c)
      (read_line-Shrinks response_size c.buf.avail c.buf.recvs (omega arith)) e

round-ends :
    (m : List ℕ) (o : Option (Bool × Ctl)) (more : Ctl → Lines)
    → ((d : Ctl) → o ≡ some (true, d) → more d ≢ endless)
    → round m o more ≢ endless
round-ends m none more h = λ e. cc e
round-ends m (some (false, d)) more h = λ e. cc e
round-ends m (some (true, d)) more h = elim (Bool-cases (strncmp_eq 4 d.response m)) [
  | inl e ↦ rw e (λ f. cc f)
  | inr e ↦ rw e (h d refl)
]

-- The loop ends: with as many rounds as there are bytes and answers of `recv` to come it stops
-- before they are used up.
reply_lines-ends : (n : ℕ) (m : List ℕ) (c : Ctl) → lines_of c < n → reply_lines n m c ≢ endless
unfolding reply_lines
reply_lines-ends zero m c h = absurd (omega arith)
reply_lines-ends (suc n) m c h =
    round-ends m (next_line c) (reply_lines n m)
      (λ d e. reply_lines-ends n m d (omega (arith, next_line-Shrinks c d e)))

-- The rounds that `readResponse` has are enough for the bytes and answers that are to come.
reply_lines-lines_left : (m : List ℕ) (c : Ctl) → reply_lines (lines_left c) m c ≢ endless
reply_lines-lines_left m c = reply_lines-ends (lines_left c) m c (omega arith)
