-- ===== src/Command/Relays.antt =====
-- The commands of `parse_cmd` of main/fmb630.c that switch relays and outputs: the parsing of
-- their parameters, on copies of `box` and `pin`.
use esp_fmb.Prelude.{
  ℕ, zero, suc, ◌+◌, ◌-◌, ◌*◌, ◌%◌, ◌^◌, Bool, true, false, false, ◌&&◌, not, Option, none, some,
  List, [], ◌∷◌, ltb, ◌==◌, if◌then◌else◌, length, get_or, set, take, bit_or,
}
use esp_fmb.Prelude.Words.{u8, u32}
use esp_fmb.Prelude.Int.{ℤ, pos, negsuc, wrap}
use esp_fmb.Prelude.Text.{strchr, cut_at, atoi}
use esp_fmb.Timer.{get_tmr, one_s}
use esp_fmb.Device.{Box, max_relay}

abbrev pub off : Box
off = record { stat = 0; time = 0 }

abbrev is_zero : ℤ → Bool
is_zero (pos n) = n == 0
is_zero (negsuc n) = false

-- Storing two `int`s into an `s_box`.
abbrev pub to_box : ℤ → ℤ → Box
to_box bit tim = record { stat = wrap 256 bit; time = wrap 4294967296 tim }

-- The string behind the word of a command, without one blank.
abbrev pub skip_blank : List ℕ → List ℕ
skip_blank [] = []
skip_blank (c ∷ s) = if c == b' ' then s else c ∷ s

-- One group `X,Y` of `SET_ALL`: at most 31 of its bytes count. An X before the comma keeps the
-- relay; `none` is a group without a comma.
unfoldable pub set_all_group : List ℕ → Box → Option Box
set_all_group group b =
    let tmp = take (length group % 32) group in
    elim (strchr tmp b',') [
      | none ↦ none
      | some (state, seconds) ↦ elim (strchr state b'X') [
        | none ↦
            let bit = atoi state in some (to_box bit (if is_zero bit then pos 0 else atoi seconds))
        | some _ ↦ some b
      ]
    ]

-- The loop of `SET_ALL` at relay `k`, with `left` relays to go.
unfoldable pub set_all_loop : ℕ → ℕ → List ℕ → List Box → Option (List Box)
set_all_loop zero k uks bx = some bx
set_all_loop (suc left) k uks bx =
    let (group, us) = cut_at b' ' uks in
    elim (set_all_group group (get_or bx k off)) [
      | none ↦ none
      | some b ↦ set_all_loop left (k + 1) us (set bx k b)
    ]

-- A timer for a relay that is on and has a time; `varta` is the counter when it is set.
abbrev pub timer_of : ℕ → Box → ℕ
timer_of varta b =
    if not (b.stat == 0) && ltb 0 b.time then get_tmr varta (u32 (b.time * one_s)) else 0

unfoldable pub timers_of : (ℕ → ℕ) → ℕ → List Box → List ℕ
timers_of varta k [] = []
timers_of varta k (b ∷ bx) = timer_of (varta k) b ∷ timers_of varta (k + 1) bx

-- The number of a relay, from one, in a parameter.
abbrev pub relay_index : ℤ → Option ℕ
relay_index (pos zero) = none
relay_index (pos (suc k)) = if ltb k max_relay then some k else none
relay_index (negsuc n) = none

-- The number and the seconds of `SET_ON` and `SET_OFF`.
abbrev pub arg_of : List ℕ → Option (List ℕ × List ℕ) → List ℕ × ℤ
arg_of uks none = (uks, pos 0)
arg_of uks (some (arg, behind)) = (arg, atoi behind)

abbrev pub switched : Bool → ℤ → Option ℕ → Option (ℕ × Box)
switched on seconds none = none
switched true seconds (some k) = some (k, to_box (pos 1) seconds)
switched false seconds (some k) = some (k, to_box (pos 0) (pos 0))

-- `SET_ON` and `SET_OFF`: the relay and its new setting. The number is read from as many bytes
-- as the lowest digit of the length of the parameter says: one or none.
unfoldable pub set_one : Bool → List ℕ → Option (ℕ × Box)
set_one on uks =
    let (arg, seconds) = arg_of uks (strchr uks b' ') in
    switched on seconds (relay_index (atoi (take (length arg % 2) arg)))

-- The states of all relays as the bits of a byte, from relay `k` on.
unfoldable pub stat_bits : ℕ → List Box → ℕ → ℕ
stat_bits k [] bos = bos
stat_bits k (b ∷ bx) bos = stat_bits (k + 1) bx (u8 (bit_or bos (b.stat * 2 ^ k)))

-- The mask of `setdigout`, from output `k` on: an X keeps the output, any other byte is its new
-- state with the code of 0 taken off.
unfoldable pub mask_pins : ℕ → List ℕ → List Box → List Box
mask_pins k tmp [] = []
mask_pins k tmp (b ∷ pn) =
    let c = get_or tmp k 0 in
    (if c == b'X' then b else record b { stat = u8 (c + 256 - 48) }) ∷ mask_pins (k + 1) tmp pn

-- The times of `setdigout`, one for each output; `none` is a time of 32 bytes or more, which
-- overruns the buffer `tmp`.
unfoldable pub time_pins : List ℕ → List Box → Option (List Box)
time_pins uks [] = some []
time_pins uks (b ∷ pn) =
    let (group, rest) = cut_at b' ' uks in
    let seconds = if b.stat == 0 then 0 else wrap 4294967296 (atoi group) in
    elim (time_pins rest pn) [
      | none ↦ none
      | some done ↦
          if ltb (length group) 32 then some (record b { time = seconds } ∷ done) else none
    ]

-- The outcome of `setdigout`.
pub data Digout : Type 0 where
  bad_command overrun : Digout
  set_to : List Box → Digout

unfoldable pub setdigout : List ℕ → List Box → Digout
setdigout uks pn = elim (strchr uks b' ') [
  | none ↦ bad_command
  | some (mask, times) ↦ elim (time_pins times (mask_pins 0 (take 4 mask) pn)) [
    | none ↦ overrun
    | some pn' ↦ set_to pn'
  ]
]
