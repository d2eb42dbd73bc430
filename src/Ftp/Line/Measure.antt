-- ===== src/Ftp/Line/Measure.antt =====
-- What `readLine` uses up.
use esp_fmb.Prelude.{
  ℕ, zero, suc, ◌+◌, ◌-◌, ◌≤◌, ◌<◌, ◌≡◌, ◌≢◌, refl, inl, inr, Bool, true, false, Option, none, some,
  List, [], ◌∷◌, length, take, length-append, length-drop, length-take, arith, ltb, leb, ◌==◌,
  Bool-cases,
}
use esp_fmb.Prelude.Int.{negsuc}
use esp_fmb.Ftp.Buf.{Recv, failed, got, buffer_size}
use esp_fmb.Ftp.Line.{
  memccpy, before_crlf, taken, Taken, ended, full, overran, wants, take_in, LineRead, line_read,
  overflow, end_line, resume, read_line,
}

abbrev pub left_in : List Recv → ℕ
left_in [] = 0
left_in (failed ∷ rs) = 1 + left_in rs
left_in (got bs ∷ rs) = 1 + length bs + left_in rs

-- The bytes at hand and those to come, with one for each answer of `recv`.
abbrev pub pending : List ℕ → List Recv → ℕ
pending avail recvs = length avail + left_in recvs

memccpy-length :
    (n : ℕ) (bs : List ℕ)
    → (length (memccpy n bs).0 ≤ n)
      × (length (memccpy n bs).0 ≤ length bs)
      × (((memccpy n bs).1 ≡ true) → 1 ≤ length (memccpy n bs).0)
memccpy-length zero bs = (omega arith, omega arith, λ e. cc e)
memccpy-length (suc n) [] = (omega arith, omega arith, λ e. cc e)
memccpy-length (suc n) (b ∷ bs) =
    let (x, y, z) = memccpy-length n bs in
    elim (Bool-cases (b == 10)) [
      | inl e ↦ rw e (omega arith, omega arith, λ e. omega arith)
      | inr e ↦ rw e (omega arith, omega arith, λ e. omega arith)
    ]

-- How the bytes at hand are used.
abbrev Uses : ℕ → Taken → Type 0
Uses n (ended line rest) = (length rest < n)
Uses n (full line rest) = (length rest < n)
Uses n overran = Unit
Uses n (wants line max) = (length line ≤ n) × (2 ≤ max)

taken-Uses :
    (max : ℕ) (line avail copied : List ℕ) (found : Bool)
    → 2 ≤ max
    → length copied ≤ max
    → length copied ≤ length avail
    → ((found ≡ true) → 1 ≤ length copied)
    → Uses (length line + length avail) (taken max line avail copied found)
unfolding taken
taken-Uses max line avail copied true h k l m =
    let one = m refl in
    elim (Bool-cases (length copied == max)) [
      | inl e ↦ let z : ltb 0 max ≡ true = ground arith in rw (e, z) tt
      | inr e ↦ rw e (omega (arith, length-drop (length copied) avail))
    ]
taken-Uses max line avail copied false h k l m = elim (Bool-cases (length copied == max)) [
  | inl e ↦ let z : ltb 0 max ≡ true = ground arith in rw (e, z) tt
  | inr e ↦ elim (Bool-cases (max - length copied == 1)) [
    | inl f ↦ rw (e, f) (ground (arith, length-drop (length copied) avail))
    | inr f ↦ rw (e, f) (omega (arith, length-append line copied), ground arith)
  ]
]

-- A call that gives a length has used something up.
abbrev pub Shrinks : ℕ → LineRead → Type 0
Shrinks n overflow = Unit
Shrinks n (line_read l) = (l.ret ≢ negsuc 0) → pending l.avail l.recvs < n

take_in-Uses :
    (max : ℕ) (line avail : List ℕ)
    → 2 ≤ max
    → Uses (length line + length avail) (take_in max line avail)
unfolding take_in
take_in-Uses max line avail h = elim (Bool-cases (leb (length avail) max)) [
  | inl e ↦
      let (x, y, z) = memccpy-length (length avail) avail in
      rw e (
        taken-Uses max line avail (memccpy (length avail) avail).0 (memccpy (length avail) avail).1
          h (ground arith) y z)
  | inr e ↦
      let (x, y, z) = memccpy-length (max - 1) avail in
      rw e (
        taken-Uses max line avail (memccpy (max - 1) avail).0 (memccpy (max - 1) avail).1 h
          (omega arith) y z)
]

Shrinks-mono : {m n : ℕ} (r : LineRead) → m ≤ n → Shrinks m r → Shrinks n r
Shrinks-mono overflow h k = tt
Shrinks-mono (line_read l) h k = λ e. let t = k e in omega arith

end_line-Shrinks :
    (line : List ℕ) (o : Option (List ℕ)) (rest : List ℕ) (recvs : List Recv) (n : ℕ)
    → length rest < n
    → Shrinks (n + left_in recvs) (line_read (end_line line o rest recvs))
end_line-Shrinks line none rest recvs n h = λ e. omega arith
end_line-Shrinks line (some t) rest recvs n h = λ e. omega arith

resume-Shrinks :
    (recvs : List Recv) (n : ℕ) (t : Taken)
    → Uses n t
    → Shrinks (n + left_in recvs) (resume t recvs)
unfolding resume
resume-Shrinks recvs n (ended line rest) h = end_line-Shrinks line (before_crlf line) rest recvs n h
resume-Shrinks recvs n (full line rest) h = λ e. omega arith
resume-Shrinks recvs n overran h = tt
resume-Shrinks [] n (wants line max) h = λ e. absurd (e refl)
resume-Shrinks (failed ∷ recvs) n (wants line max) h = λ e. absurd (e refl)
resume-Shrinks (got [] ∷ recvs) n (wants [] max) h = λ e. absurd (e refl)
resume-Shrinks (got [] ∷ recvs) n (wants (c ∷ line) max) h = λ e. omega arith
resume-Shrinks (got (b ∷ bs) ∷ recvs) n (wants line max) h =
    Shrinks-mono (resume (take_in max line (take buffer_size (b ∷ bs))) recvs)
      (omega (arith, length-take buffer_size (b ∷ bs)))
      (resume-Shrinks recvs (length line + length (take buffer_size (b ∷ bs)))
        (take_in max line (take buffer_size (b ∷ bs)))
        (take_in-Uses max line (take buffer_size (b ∷ bs)) h.1))

-- A call that gives a length has used up a byte or an answer of `recv`.
pub read_line-Shrinks :
    (max : ℕ) (avail : List ℕ) (recvs : List Recv)
    → 2 ≤ max
    → Shrinks (pending avail recvs) (read_line max avail recvs)
unfolding read_line
read_line-Shrinks max avail recvs h =
    Shrinks-mono (resume (take_in max [] avail) recvs) (omega arith)
      (resume-Shrinks recvs (0 + length avail) (take_in max [] avail) (take_in-Uses max [] avail h))
