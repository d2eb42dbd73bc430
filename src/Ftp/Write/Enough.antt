-- ===== src/Ftp/Write/Enough.antt =====
-- `writeLine` sends all where the network takes whole blocks.
use esp_fmb.Prelude.{
  ℕ, suc, ◌+◌, ◌*◌, ◌≤◌, ◌≡◌, refl, ap, ◌∙◌, Bool, true, false, not, ◌&&◌, none, some, List, [],
  ◌∷◌, ◌++◌, ◌==◌, length, inl, inr, Bool-cases, arith, length-append, min,
}
use esp_fmb.Ftp.Buf.{writing, NetBuf, send_some, buffer_size}
use esp_fmb.Ftp.Write.{
  Held, sent_all, flush, appended, put, put_cr, put_all, send_rest, counted, if_writing, write_line,
}
use esp_fmb.Ftp.Write.Laws.{flat, crlf, write_line-crlf}

-- Each `send` takes as much as a buffer holds.
abbrev pub Roomy : List ℕ → Type 0
Roomy [] = Unit
Roomy (n ∷ ns) = (buffer_size ≤ n) × Roomy ns

-- The buffer is not over its size, and `k` calls of `send` are left.
abbrev Room : ℕ → Held → Type 0
Room k (none, b) = ⊥
Room k (some held, b) = (length held ≤ buffer_size) × Roomy b.sends × (k ≤ length b.sends)

-- The buffer was sent, and `k` calls of `send` are left.
abbrev Done : ℕ → Held → Type 0
Done k (none, b) = ⊥
Done k (some held, b) = (held ≡ []) × Roomy b.sends × (k ≤ length b.sends)

flushed-Done :
    (k : ℕ) (ns held : List ℕ) (b : NetBuf)
    → length held ≤ buffer_size
    → Roomy ns
    → suc k ≤ length ns
    → Done k (sent_all ((send_some held ns b).0 == length held) (send_some held ns b).1)
flushed-Done k [] held b h r l = absurd (omega arith)
flushed-Done k (n ∷ ns) held b h r l =
    let e : (min n (length held) == length held) ≡ true = ground arith in
    rw e (refl, r.1, omega arith)

flush-Done :
    (k : ℕ) (held : List ℕ) (b : NetBuf) → Room (suc k) (some held, b) → Done k (flush held b)
unfolding flush
flush-Done k held b r = flushed-Done k b.sends held b r.0 r.1 r.2

appended-Room : (c k : ℕ) (h : Held) → Done k h → Room k (appended c h)
appended-Room c k (none, b) d = elim d [ ]
appended-Room c k (some held, b) d =
    (omega (arith, ap length d.0, length-append held (c ∷ [])), d.1, d.2)

put-Room : (c k : ℕ) (h : Held) → Room (suc k) h → Room k (put c h)
put-Room c k (none, b) r = elim r [ ]
put-Room c k (some held, b) r = elim (Bool-cases (length held == buffer_size)) [
  | inl e ↦ simp e (appended-Room c k (flush held b) (flush-Done k held b r))
  | inr e ↦ rw e (ground (arith, length-append held (c ∷ [])), r.1, omega arith)
]

Room-mono : (k m : ℕ) (h : Held) → k ≤ m → Room m h → Room k h
Room-mono k m (none, b) l r = r
Room-mono k m (some held, b) l r = (r.0, r.1, omega (arith, r.2))

put_cr-Room : (t : Bool) (k : ℕ) (h : Held) → Room (suc k) h → Room k (put_cr t h)
put_cr-Room true k h r = put-Room 13 k h r
put_cr-Room false k h r = Room-mono k (suc k) h (omega arith) r

put_all-Room :
    (last k : ℕ) (s : List ℕ) (h : Held) → Room (2 * length s + k) h → Room k (put_all last s h)
unfolding put_all
put_all-Room last k [] h r = Room-mono k (2 * 0 + k) h (omega arith) r
put_all-Room last k (c ∷ s) h r =
    let t = (c == 10) && not (last == 13) in
    let n = 2 * length s + k in
    put_all-Room c k s (put c (put_cr t h)) (
      put-Room c n (put_cr t h) (
        put_cr-Room t (suc n) h
          (Room-mono (suc (suc n)) (2 * suc (length s) + k) h (omega arith) r)))

send_rest-Done : (h : Held) → Room 1 h → Done 0 (send_rest h)
send_rest-Done (none, b) r = elim r [ ]
send_rest-Done (some [], b) r = (refl, r.1, omega arith)
send_rest-Done (some (c ∷ held), b) r = flush-Done 0 (c ∷ held) b r

counted-some : (n : ℕ) (h : Held) → Done 0 h → (d : NetBuf) × (counted n h ≡ (some n, d))
counted-some n (none, b) r = elim r [ ]
counted-some n (some held, b) r = (b, refl)

-- A connection for writing whose network takes whole blocks, with two calls of `send` for each byte of
-- the text and one more: the call gives the length of the text, and sends it with CR before each LF
-- that follows no CR.
pub write_line-enough :
    (s : List ℕ) (b : NetBuf)
    → b.dir ≡ writing
    → Roomy b.sends
    → 2 * length s + 1 ≤ length b.sends
    → (d : NetBuf) × (write_line s b ≡ (some (length s), d))
      × (flat d.sent ≡ flat b.sent ++ crlf 0 s)
unfolding write_line
write_line-enough s b i r l =
    let h = put_all 0 s (some [], b) in
    let (d, e) =
      counted-some (length s) (send_rest h)
        (send_rest-Done h (put_all-Room 0 1 s (some [], b) (omega arith, r, l))) in
    let f : write_line s b ≡ (some (length s), d) =
      ap (λ i. if_writing i (counted (length s) (send_rest h)) b) i ∙ e in
    (d, f, (write_line-crlf s b (length s) d f).1)
