-- ===== src/Record/Motion.antt =====
-- Where the scenario step moves the device, against a compass.
use esp_fmb.Prelude.{
  ℕ, ◌+◌, ◌-◌, ◌%◌, ◌<◌, ◌≡◌, refl, ◌∙◌, inl, inr, true, false, Option, none, some, arith,
  Bool-cases, ◌==◌,
}
use esp_fmb.Prelude.Words.{htons, htonl, htonl-htonl, htons-htons, u32, u16}
use esp_fmb.Mirror.{Gsm}
use esp_fmb.Scenario.{
  Rumb, park, north, east, south, west, north_east, north_west, south_east, south_west, stop,
}
use esp_fmb.Record.Cases.{
  Drive, Terms, drive_case, park_case, stop_case, north_south, east_west, diagonal, cruise, burn,
  odometer, set_speed, set_tach, set_doors, set_ignition, move_lat, move_lon, turn, refuel,
}

-- How a direction changes a coordinate.
pub data Sense : Type 0 where
  forth back still : Sense

abbrev pub lat_sense : Rumb → Sense
lat_sense north = forth
lat_sense north_east = forth
lat_sense north_west = forth
lat_sense south = back
lat_sense south_east = back
lat_sense south_west = back
lat_sense _ = still

abbrev pub lon_sense : Rumb → Sense
lon_sense east = forth
lon_sense north_east = forth
lon_sense south_east = forth
lon_sense west = back
lon_sense north_west = back
lon_sense south_west = back
lon_sense _ = still

-- Degrees clockwise from the north, for the directions that move.
abbrev pub heading : Rumb → Option ℕ
heading north = some 0
heading north_east = some 45
heading east = some 90
heading south_east = some 135
heading south = some 180
heading south_west = some 225
heading west = some 270
heading north_west = some 315
heading _ = none

-- A coordinate is a 32-bit word, and goes round at its ends.
abbrev pub shifted : Sense → ℕ → ℕ → ℕ
shifted forth by x = (x + by) % 4294967296
shifted back by x = (x + 4294967296 - by % 4294967296) % 4294967296
shifted still by x = x

abbrev pub turned : Option ℕ → ℕ → ℕ
turned none angle = angle
turned (some a) angle = a

burn-gsm : (d : Drive) → (burn d).mirs.gsm ≡ d.mirs.gsm
unfolding burn
burn-gsm d = ground arith

cruise-gsm :
    (tach gain : ℕ) (t : Terms) (d : Drive)
    → let g = d.mirs.gsm in
      (cruise tach gain t d).mirs.gsm ≡ record g { speed = htons (u16 (d.scena_kols + gain)) }
unfolding cruise set_speed odometer set_tach
cruise-gsm tach gain t d = burn-gsm _

refuel-gsm : (bit16 : ℕ) (d : Drive) → (refuel bit16 d).mirs.gsm ≡ d.mirs.gsm
unfolding refuel set_tach
refuel-gsm bit16 d = ground arith

-- The coordinates and the angle of `g'`, in the order of the processor, after a step by `by` in
-- the direction `dir` from `g`.
pub record Moved (dir : Rumb) (by : ℕ) (g g' : Gsm) : Type 0 where
  pub lat : htonl g'.latitude ≡ shifted (lat_sense dir) by (htonl g.latitude)
  pub lon : htonl g'.longitude ≡ shifted (lon_sense dir) by (htonl g.longitude)
  pub angle : htons g'.angle ≡ turned (heading dir) (htons g.angle)

word : (x : ℕ) → htonl (htonl (u32 x)) ≡ u32 x
word x = htonl-htonl (u32 x) ∙ omega arith

half : (x : ℕ) → x < 65536 → htons (htons x) ≡ x
half x h = htons-htons x ∙ omega arith

north_south-Moved :
    (t : Terms) (by : ℕ) (d : Drive)
    → Moved north by d.mirs.gsm (north_south true t by d).mirs.gsm
      × Moved south by d.mirs.gsm (north_south false t by d).mirs.gsm
unfolding north_south move_lat turn
north_south-Moved t by d = rw (cruise-gsm _ 8 t d) (
  record { lat = word _; lon = refl; angle = half 0 (omega arith) },
  record { lat = word _; lon = refl; angle = half 180 (omega arith) },
)

east_west-Moved :
    (t : Terms) (by : ℕ) (d : Drive)
    → Moved west by d.mirs.gsm (east_west true t by d).mirs.gsm
      × Moved east by d.mirs.gsm (east_west false t by d).mirs.gsm
unfolding east_west move_lon turn
east_west-Moved t by d = rw (cruise-gsm _ 5 t d) (
  record { lat = refl; lon = word _; angle = half 270 (omega arith) },
  record { lat = refl; lon = word _; angle = half 90 (omega arith) },
)

north_diagonal-Moved :
    (t : Terms) (by : ℕ) (d : Drive)
    → Moved north_west by d.mirs.gsm (diagonal true true t by d).mirs.gsm
      × Moved north_east by d.mirs.gsm (diagonal true false t by d).mirs.gsm
unfolding diagonal move_lat move_lon turn
north_diagonal-Moved t by d = rw (cruise-gsm _ 8 t d) (
  record { lat = word _; lon = word _; angle = half 315 (omega arith) },
  record { lat = word _; lon = word _; angle = half 45 (omega arith) },
)

south_diagonal-Moved :
    (t : Terms) (by : ℕ) (d : Drive)
    → Moved south_west by d.mirs.gsm (diagonal false true t by d).mirs.gsm
      × Moved south_east by d.mirs.gsm (diagonal false false t by d).mirs.gsm
unfolding diagonal move_lat move_lon turn
south_diagonal-Moved t by d = rw (cruise-gsm _ 8 t d) (
  record { lat = word _; lon = word _; angle = half 225 (omega arith) },
  record { lat = word _; lon = word _; angle = half 135 (omega arith) },
)

park_case-gsm :
    (t : Terms) (d : Drive)
    → let g = d.mirs.gsm in (park_case t d).mirs.gsm ≡ record g { speed = 0 }
unfolding park_case set_speed set_doors set_tach set_ignition
park_case-gsm t d = elim (Bool-cases (d.mirs.io1.val_dout1 == 0)) [
  | inl locked ↦ rw locked refl
  | inr unlocked ↦ rw unlocked (refuel-gsm _ _)
]

stop_case-gsm :
    (t : Terms) (d : Drive)
    → let g = d.mirs.gsm in (stop_case t d).mirs.gsm ≡ record g { speed = 0 }
unfolding stop_case set_speed set_doors set_tach set_ignition
stop_case-gsm t d = ground arith

-- Every entry moves the device by its step along the compass, or, if it is a stop or a park,
-- leaves position and angle as they are; coordinates go round at 2^32.
pub drive_case-Moved :
    (dir : Rumb) (t : Terms) (by : ℕ) (d : Drive)
    → Moved dir by d.mirs.gsm (drive_case dir t by d).mirs.gsm
unfolding drive_case
drive_case-Moved park t by d =
    rw (park_case-gsm t d) (record { lat = refl; lon = refl; angle = refl })
drive_case-Moved stop t by d =
    rw (stop_case-gsm t d) (record { lat = refl; lon = refl; angle = refl })
drive_case-Moved north t by d = (north_south-Moved t by d).0
drive_case-Moved south t by d = (north_south-Moved t by d).1
drive_case-Moved west t by d = (east_west-Moved t by d).0
drive_case-Moved east t by d = (east_west-Moved t by d).1
drive_case-Moved north_west t by d = (north_diagonal-Moved t by d).0
drive_case-Moved north_east t by d = (north_diagonal-Moved t by d).1
drive_case-Moved south_west t by d = (south_diagonal-Moved t by d).0
drive_case-Moved south_east t by d = (south_diagonal-Moved t by d).1
