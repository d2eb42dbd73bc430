-- ===== src/Ftp/Line/Pieces.antt =====
-- `memccpy` takes a piece of the stream up to the end of its first line.
use esp_fmb.Prelude.{
  ℕ, zero, suc, ◌+◌, ◌-◌, ◌≤◌, ◌<◌, ◌≡◌, ◌≢◌, refl, sym, ap, ap₂, ◌⊎◌, inl, inr, true, false, some,
  Bool-cases, get_or, List, [], ◌∷◌, ◌++◌, length, drop, length-append, arith, leb, ◌==◌,
}
use esp_fmb.Ftp.Buf.{Recv, got, buffer_size}
use esp_fmb.Ftp.Line.{memccpy, before_crlf, taken, ended, wants, take_in}

-- The bytes of some pieces.
abbrev pub joined : List (List ℕ) → List ℕ
joined [] = []
joined (c ∷ cs) = c ++ joined cs

-- Pieces as `recv` gives them: not empty, and at most as large as the buffer.
abbrev pub Pieces : List (List ℕ) → Type 0
Pieces [] = Unit
Pieces (c ∷ cs) = (1 ≤ length c) × (length c ≤ buffer_size) × Pieces cs

-- The pieces and what comes after them.
abbrev pub pieces : List (List ℕ) → List Recv → List Recv
pieces [] more = more
pieces (c ∷ cs) more = got c ∷ pieces cs more

-- No line end.
abbrev pub OneLine : List ℕ → Type 0
OneLine [] = Unit
OneLine (c ∷ s) = (c ≢ 10) × OneLine s

cons_eq {ℓ} : {A : Type ℓ} (x y : A) (xs ys : List A) → x ∷ xs ≡ y ∷ ys → (x ≡ y) × (xs ≡ ys)
cons_eq x y xs ys e = (ap (λ l. get_or l 0 x) e, ap (drop 1) e)

-- Where the end of the line is: behind the bytes at hand or among them.
pub where_end :
    (avail b rest tail : List ℕ)
    → avail ++ b ≡ rest ++ 10 ∷ tail
    → ((a : List ℕ) × (avail ≡ rest ++ 10 ∷ a) × (a ++ b ≡ tail))
      ⊎ ((r : List ℕ) × (rest ≡ avail ++ r) × (b ≡ r ++ 10 ∷ tail))
where_end [] b rest tail e = inr (rest, refl, e)
where_end (x ∷ avail) b [] tail e =
    let (h, t) = cons_eq x 10 (avail ++ b) tail e in inl (avail, ap (λ (c : ℕ). c ∷ avail) h, t)
where_end (x ∷ avail) b (y ∷ rest) tail e =
    let (h, t) = cons_eq x y (avail ++ b) (rest ++ 10 ∷ tail) e in
    elim (where_end avail b rest tail t) [
      | inl (a, p, q) ↦ inl (a, ap₂ (λ (c : ℕ) (s : List ℕ). c ∷ s) h p, q)
      | inr (r, p, q) ↦ inr (r, ap₂ (λ (c : ℕ) (s : List ℕ). c ∷ s) (sym h) p, q)
    ]

memccpy-found :
    (n : ℕ) (rest a : List ℕ)
    → OneLine rest
    → length rest < n
    → memccpy n (rest ++ 10 ∷ a) ≡ (rest ++ 10 ∷ [], true)
memccpy-found zero rest a h k = absurd (omega arith)
memccpy-found (suc n) [] a h k = refl
memccpy-found (suc n) (c ∷ rest) a h k =
    let e : (c == 10) ≡ false = ground arith in
    rw (e, memccpy-found n rest a h.1 (omega arith)) refl

memccpy-all :
    (avail r : List ℕ) → OneLine (avail ++ r) → memccpy (length avail) avail ≡ (avail, false)
memccpy-all [] r h = refl
memccpy-all (c ∷ avail) r h =
    let e : (c == 10) ≡ false = ground arith in rw (e, memccpy-all avail r h.1) refl

pub before_crlf-end : (text : List ℕ) → before_crlf (text ++ 13 ∷ 10 ∷ []) ≡ some text
unfolding before_crlf
before_crlf-end [] = refl
before_crlf-end (c ∷ []) = refl
before_crlf-end (c ∷ d ∷ []) = refl
before_crlf-end (c ∷ d ∷ e ∷ text) = rw (before_crlf-end (d ∷ e ∷ text)) refl

drop-line : (rest a : List ℕ) → drop (length (rest ++ 10 ∷ [])) (rest ++ 10 ∷ a) ≡ a
drop-line [] a = refl
drop-line (x ∷ rest) a = drop-line rest a

taken-found :
    (max : ℕ) (line rest a : List ℕ)
    → length rest + 2 ≤ max
    → taken max line (rest ++ 10 ∷ a) (rest ++ 10 ∷ []) true ≡ ended (line ++ (rest ++ 10 ∷ [])) a
unfolding taken
taken-found max line rest a k =
    let e : (length (rest ++ 10 ∷ []) == max) ≡ false =
      ground (arith, length-append rest (10 ∷ [])) in
    rw (e, drop-line rest a) refl

pub take_in-found :
    (max : ℕ) (line rest a : List ℕ)
    → OneLine rest
    → length rest + 2 ≤ max
    → take_in max line (rest ++ 10 ∷ a) ≡ ended (line ++ (rest ++ 10 ∷ [])) a
unfolding take_in
take_in-found max line rest a h k = elim (Bool-cases (leb (length (rest ++ 10 ∷ a)) max)) [
  | inl e ↦
      rw
        (
          e,
          memccpy-found (length (rest ++ 10 ∷ a)) rest a h
              (omega (arith, length-append rest (10 ∷ a))),
        )
        (taken-found max line rest a k)
  | inr e ↦ rw (e, memccpy-found (max - 1) rest a h (omega arith)) (taken-found max line rest a k)
]

drop-length : (xs : List ℕ) → drop (length xs) xs ≡ []
drop-length [] = refl
drop-length (x ∷ xs) = drop-length xs

taken-all :
    (max : ℕ) (line avail : List ℕ)
    → length avail + 2 ≤ max
    → taken max line avail avail false ≡ wants (line ++ avail) (max - length avail)
unfolding taken
taken-all max line avail k =
    let e : (length avail == max) ≡ false = ground arith in
    let n : (max - length avail == 1) ≡ false = ground arith in rw (e, n) refl

pub take_in-all :
    (max : ℕ) (line avail r : List ℕ)
    → OneLine (avail ++ r)
    → length avail + 2 ≤ max
    → take_in max line avail ≡ wants (line ++ avail) (max - length avail)
unfolding take_in
take_in-all max line avail r h k =
    let e : leb (length avail) max ≡ true = ground arith in
    rw (e, memccpy-all avail r h) (taken-all max line avail k)
