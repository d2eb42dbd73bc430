-- ===== src/Scenario/Laws.antt =====
-- The linked list is an array that is indexed from one.
use esp_fmb.Prelude.{
  ℕ, zero, suc, ◌+◌, ◌-◌, ◌<◌, ◌≡◌, refl, ap, ◌∙◌, true, some, List, [], ◌∷◌, length, get_elem?,
  arith, ◌++◌, length-append, append_assoc, append-nil, sym,
}
use esp_fmb.Prelude.Int.{pos}
use esp_fmb.Prelude.Words.{u32}
use esp_fmb.Scenario.{
  Ones, Rec, HdrRec, no_records, link, add_ones, find_rec, get_ones, free_recs, del_all_ones,
  add_all, as_int,
}

-- The entries `os` under the numbers from `n` on.
abbrev pub numbered : ℕ → List Ones → List Rec
numbered n [] = []
numbered n (o ∷ os) = record { index = n; ones = o } ∷ numbered (n + 1) os

-- The list holds the entries `os`, numbered from one, and their number.
pub record Holds (os : List Ones) (h : HdrRec) : Type 0 where
  pub nodes : h.first ≡ numbered 1 os
  pub count : h.counter ≡ length os

link-append : (xs : List Rec) (r : Rec) → link xs r ≡ xs ++ r ∷ []
unfolding link
link-append [] r = refl
link-append (x ∷ xs) r = ap (◌∷◌ x) (link-append xs r)

numbered-append :
    (n : ℕ) (os : List Ones) (o : Ones)
    → numbered n (os ++ o ∷ []) ≡ numbered n os ++ record { index = n + length os; ones = o } ∷ []
numbered-append n [] o = let e : n + 0 ≡ n = omega arith in rw e refl
numbered-append n (p ∷ os) o =
    let e : n + suc (length os) ≡ n + 1 + length os = omega arith in
    rw e (ap (◌∷◌ (record { index = n; ones = p })) (numbered-append (n + 1) os o))

-- Adding an entry puts it behind the others, and returns its number, while the number fits.
pub add_ones-Holds :
    (os : List Ones) (o : Ones) (h : HdrRec)
    → Holds os h
    → length os + 1 < 2147483648
    → Holds (os ++ o ∷ []) (add_ones true (some o) h).0
      × ((add_ones true (some o) h).1 ≡ pos (length os + 1))
unfolding add_ones
add_ones-Holds os o h v fits = (
  record {
    nodes = rw (link-append, v.nodes, number) (sym (numbered-append 1 os o));
    count = omega (arith, v.count, length-append os (o ∷ []));
  },
  returned,
)
  where
    returned : as_int (u32 (h.counter + 1)) ≡ pos (length os + 1)
    returned = ground (arith, v.count)

    number : u32 (h.counter + 1) ≡ 1 + length os
    number = omega (arith, v.count)

add_all-Holds :
    (more os : List Ones) (h : HdrRec)
    → Holds os h
    → length os + length more < 2147483648
    → Holds (os ++ more) (add_all more h)
unfolding add_all
add_all-Holds [] os h v fits = rw append-nil v
add_all-Holds (o ∷ more) os h v fits = rw (← append_assoc os (o ∷ []) more) (
    add_all-Holds more (os ++ o ∷ []) _ (add_ones-Holds os o h v (omega arith)).0
      (omega (arith, length-append os (o ∷ []))))

empty : Holds [] no_records
empty = record { nodes = refl; count = refl }

length-numbered : (n : ℕ) (os : List Ones) → length (numbered n os) ≡ length os
length-numbered n [] = refl
length-numbered n (o ∷ os) = ap suc (length-numbered (n + 1) os)

free_recs-sub : (rs : List Rec) (counter : ℕ) → free_recs rs counter ≡ counter - length rs
unfolding free_recs
free_recs-sub [] counter = omega arith
free_recs-sub (r ∷ rs) counter =
    ground (arith, free_recs-sub rs counter, free_recs-sub rs (counter - 1))

find_rec-numbered : (os : List Ones) (n k : ℕ) → find_rec (n + k) (numbered n os) ≡ get_elem? os k
unfolding find_rec
find_rec-numbered [] n k = refl
find_rec-numbered (o ∷ os) n zero = ground arith
find_rec-numbered (o ∷ os) n (suc k) =
    let e : n + suc k ≡ n + 1 + k = omega arith in
    ground
      (arith, ap (λ (i : ℕ). find_rec i (numbered (n + 1) os)) e, find_rec-numbered os (n + 1) k)

-- Once the entries `os`, fewer than 2^31, are added to the empty list, entry `k + 1` is the one at
-- index `k` of `os`, and there is none past the end.
pub get_ones-add_all :
    (os : List Ones) (k : ℕ)
    → length os < 2147483648
    → get_ones (pos (suc k)) (add_all os no_records) ≡ get_elem? os k
unfolding get_ones
get_ones-add_all os k fits =
    positive
    ∙ ap (find_rec (suc k)) (add_all-Holds os [] no_records empty (omega arith)).nodes
    ∙ ap (λ (i : ℕ). find_rec i (numbered 1 os)) (omega arith)
    ∙ find_rec-numbered os 1 k
  where
    positive :
        get_ones (pos (suc k)) (add_all os no_records)
        ≡ find_rec (suc k) (add_all os no_records).first
    positive = ground arith

-- Once fewer than 2^31 entries are added to the empty list, deleting all gives it back, with the
-- counter 0.
pub del_all_ones-add_all :
    (os : List Ones) → length os < 2147483648 → del_all_ones (add_all os no_records) ≡ no_records
unfolding del_all_ones
del_all_ones-add_all os fits =
    ap (λ (c : ℕ). record { first = []; counter = c })
      (free_recs-sub (add_all os no_records).first _
        ∙ omega (arith, held.count, ap length held.nodes, length-numbered 1 os))
  where
    held : Holds os (add_all os no_records)
    held = add_all-Holds os [] no_records empty (omega arith)
