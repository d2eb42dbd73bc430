-- ===== src/Scenario.antt =====
-- The list of scenario entries of main/fmb630.c: `rumb_t`, `s_ones`, `s_rec`, `s_hdr_rec` and the
-- functions that add, find and delete entries. `rec_mutex` is waited for without limit, so each
-- of them runs alone; what they print is left out.
pub mod Laws
use esp_fmb.Prelude.{
  ℕ, zero, suc, ◌+◌, ◌-◌, ◌%◌, Bool, true, false, Option, none, some, List, [], ◌∷◌, ltb, ◌==◌,
  if◌then◌else◌,
}
use esp_fmb.Prelude.Words.{u32}
use esp_fmb.Prelude.Int.{ℤ, pos, negsuc}

pub data Rumb : Type 0 where
  park north east south west north_east north_west south_east south_west stop : Rumb

-- A direction or a stop, the step of the coordinates, the number of measurements.
pub record Ones : Type 0 where
  pub dir : Rumb
  pub delta : ℤ
  pub kols : ℤ

-- `index` is an `int`, given by its bits.
pub record Rec : Type 0 where
  pub index : ℕ
  pub ones : Ones

-- The linked list from `first` on.
pub record HdrRec : Type 0 where
  pub first : List Rec
  pub counter : ℕ

abbrev pub no_records : HdrRec
no_records = record { first = []; counter = 0 }

-- The walk to the tail.
link : List Rec → Rec → List Rec
link [] r = r ∷ []
link (x ∷ xs) r = x ∷ link xs r

-- The `int` of 32 bits.
abbrev pub as_int : ℕ → ℤ
as_int n = if ltb n 2147483648 then pos n else negsuc (4294967295 - n)

-- `allocated` says whether `calloc` gave a node.
unfoldable pub add_ones : Bool → Option Ones → HdrRec → HdrRec × ℤ
unfolding link
add_ones allocated none h = (h, negsuc 0)
add_ones false (some o) h = (h, negsuc 0)
add_ones true (some o) h =
    let n = u32 (h.counter + 1) in
    (record { first = link h.first (record { index = n; ones = o }); counter = n }, as_int n)

find_rec : ℕ → List Rec → Option Ones
find_rec ind [] = none
find_rec ind (r ∷ rs) = if r.index == ind then some r.ones else find_rec ind rs

-- The entry found, which is also copied to `data`. The number asked for is an `int`.
unfoldable pub get_ones : ℤ → HdrRec → Option Ones
unfolding find_rec
get_ones (negsuc n) h = none
get_ones (pos n) h = if ltb 0 n then find_rec n h.first else none

-- The loop that frees the nodes and counts down.
free_recs : List Rec → ℕ → ℕ
free_recs [] counter = counter
free_recs (r ∷ rs) counter = free_recs rs (if ltb 0 counter then counter - 1 else counter)

unfoldable pub del_all_ones : HdrRec → HdrRec
unfolding free_recs
del_all_ones h = record { first = []; counter = free_recs h.first h.counter }

-- The entries of a configuration file, added in order.
unfoldable pub add_all : List Ones → HdrRec → HdrRec
add_all [] h = h
add_all (o ∷ os) h = add_all os (add_ones true (some o) h).0
