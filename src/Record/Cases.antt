-- ===== src/Record/Cases.antt =====
-- The scenario step of `make_record` of main/fmb630.c: one function for each group of cases of its
-- `switch`, and what they share. A drive is the copy `mirs` of the state with the variables that
-- the cases change.
use esp_fmb.Prelude.{ℕ, ◌+◌, ◌-◌, ◌*◌, ◌/◌, ◌%◌, Bool, true, false, ltb, leb, ◌==◌, if◌then◌else◌}
use esp_fmb.Prelude.Words.{u8, u16, u32, htons, htonl}
use esp_fmb.Prelude.Int.{abs}
use esp_fmb.Prelude.Float.{float_of}
use esp_fmb.Mirror.{Mir, Gsm, Io1, Io2, Io4}
use esp_fmb.Scenario.{
  Rumb, Ones, park, north, east, south, west, north_east, north_west, south_east, south_west, stop,
}

pub record Drive : Type 0 where
  pub mirs : Mir
  pub scena_kols : ℕ
  pub send_period : ℕ
  pub move_flag : ℕ
  pub stop_flag : ℕ
  pub cdut : ℕ

-- What the cases read: the two periods, and the seconds since the last packet.
pub record Terms : Type 0 where
  pub sp_park : ℕ
  pub sp_move : ℕ
  pub elapsed : ℕ

abbrev pub max_fuel_tank : ℕ
max_fuel_tank = 750

abbrev pub min_fuel_tank : ℕ
min_fuel_tank = 3300

abbrev edit_gsm : (Gsm → Gsm) → Drive → Drive
edit_gsm f d = let m = d.mirs in record d { mirs = record m { gsm = f m.gsm } }

abbrev edit_io1 : (Io1 → Io1) → Drive → Drive
edit_io1 f d = let m = d.mirs in record d { mirs = record m { io1 = f m.io1 } }

abbrev edit_io2 : (Io2 → Io2) → Drive → Drive
edit_io2 f d = let m = d.mirs in record d { mirs = record m { io2 = f m.io2 } }

abbrev edit_io4 : (Io4 → Io4) → Drive → Drive
edit_io4 f d = let m = d.mirs in record d { mirs = record m { io4 = f m.io4 } }

-- `mirs.gsm.speed = mirs.io2.val_speed = v`
unfoldable pub set_speed : ℕ → Drive → Drive
set_speed v d =
    edit_gsm (λ g. record g { speed = v }) (edit_io2 (λ i. record i { val_speed = v }) d)

-- The doors, the trunk and the parking input, and the voltage of the hood.
unfoldable pub set_doors : ℕ → ℕ → Drive → Drive
set_doors v hood d =
    edit_io1 (λ i. record i { val_din2 = v; val_din3 = v; val_din4 = v })
      (edit_io2 (λ i. record i { val_ain3 = htons hood }) d)

unfoldable pub set_tach : ℕ → Drive → Drive
set_tach v d = edit_io2 (λ i. record i { val_ain2 = v }) d

unfoldable pub set_ignition : ℕ → Drive → Drive
set_ignition v d = edit_io1 (λ i. record i { val_din1 = v; val_ignition = v }) d

-- With the pump unlocked: fill up, or drive off if the tank is half full.
unfoldable pub refuel : ℕ → Drive → Drive
refuel bit16 d =
    let half = (min_fuel_tank - max_fuel_tank) / 2 in
    if ltb half bit16
    then (let left = bit16 - half in
        let fuel = if ltb left max_fuel_tank then max_fuel_tank else left in
        edit_io2 (λ i. record i { val_ain1 = htons fuel }) d)
    else (let d' = set_tach (htons 1536) (
          edit_io2 (λ i. record i { val_evolt = htons 12950 })
            (edit_io1 (λ i. record i { val_din4 = 0 }) d)) in
        record d' { send_period = 2; scena_kols = 255; move_flag = 1 })

-- case 0
unfoldable pub park_case : Terms → Drive → Drive
park_case t d =
    let d' = set_tach (htons 326) (set_doors 1 1200 (set_speed 0 d)) in
    let d1 =
      edit_io4 (λ i. record i { val_odo = 0 })
        (record d' { move_flag = 0; send_period = t.sp_park; scena_kols = 1 }) in
    if d.mirs.io1.val_dout1 == 0 then d1 else refuel (htons d.mirs.io2.val_ain1) (set_ignition 1 d1)

-- The odometers, from the speed in metres a second and the time.
unfoldable pub odometer : ℕ → Terms → Drive → Drive
odometer bit16 t d =
    let way = u32 (float_of (u32 (bit16 * 1000 / 3600 * t.elapsed))) in
    edit_io4
      (λ i. record i { val_odo = htonl way; val_todo = htonl (u32 (way + htonl i.val_todo)) }) d

-- Every fourth time the fuel sensor goes up, which says that there is less; at a tenth of the
-- tank the stop flag is set.
unfoldable pub burn : Drive → Drive
burn d =
    let c = u8 (d.cdut + 255) % 4 in
    let bit16 = u16 (htons d.mirs.io2.val_ain1 + 1) in
    let d' = record d { cdut = c } in
    if c == 0
    then (let d'' = edit_io2 (λ i. record i { val_ain1 = htons bit16 }) d' in
        record d'' {
          stop_flag = if leb (min_fuel_tank - min_fuel_tank / 10) bit16 then 1 else d.stop_flag;
        })
    else d'

-- What a case of movement does besides the position: tachometer, speed, odometers, fuel, flags.
unfoldable pub cruise : ℕ → ℕ → Terms → Drive → Drive
cruise tach gain t d =
    let bit16 = u16 (d.scena_kols + gain) in
    let d' = burn (odometer bit16 t (set_speed (htons bit16) (set_tach tach d))) in
    record d' { send_period = t.sp_move; move_flag = 1 }

-- The coordinates, each written only where its case does.
unfoldable pub move_lat : (ℕ → ℕ) → Drive → Drive
move_lat f d = edit_gsm (λ g. record g { latitude = htonl (f (htonl g.latitude)) }) d

unfoldable pub move_lon : (ℕ → ℕ) → Drive → Drive
move_lon f d = edit_gsm (λ g. record g { longitude = htonl (f (htonl g.longitude)) }) d

-- The angle and the altitude.
unfoldable pub turn : ℕ → (ℕ → ℕ) → Drive → Drive
turn angle f d =
    edit_gsm (λ g. record g { angle = htons angle; altitude = htons (f (htons g.altitude)) }) d

abbrev up : ℕ → ℕ → ℕ
up by x = u32 (x + by)

abbrev down : ℕ → ℕ → ℕ
down by x = u32 (x + 4294967296 - u32 by)

abbrev climb : ℕ → ℕ
climb x = u16 (x + 1)

abbrev descend : ℕ → ℕ
descend x = u16 (x + 65535)

-- cases 1 and 3
unfoldable pub north_south : Bool → Terms → ℕ → Drive → Drive
north_south is_north t by d =
    let d' = cruise (htons (u16 (htons d.mirs.io2.val_ain2 + 65536 - 28))) 8 t d in
    if is_north
    then turn 0 descend (move_lat (up by) d')
    else turn 180 climb (move_lat (down by) d')

-- cases 2 and 4
unfoldable pub east_west : Bool → Terms → ℕ → Drive → Drive
east_west is_west t by d =
    let d' = cruise (htons (u16 (htons d.mirs.io2.val_ain2 + 56))) 5 t d in
    if is_west
    then turn 270 descend (move_lon (down by) d')
    else turn 90 climb (move_lon (up by) d')

-- cases 5 to 8
unfoldable pub diagonal : Bool → Bool → Terms → ℕ → Drive → Drive
diagonal is_north is_west t by d =
    let slower = if is_north then 18 else 32 in
    let d' = cruise (htons (u16 (htons d.mirs.io2.val_ain2 + 65536 - slower))) 8 t d in
    let angle =
      if is_west then (if is_north then 315 else 225) else (if is_north then 45 else 135) in
    turn angle (if is_west then descend else climb) (
      move_lon (if is_west then down by else up by)
        (move_lat (if is_north then up by else down by) d'))

-- case 9
unfoldable pub stop_case : Terms → Drive → Drive
stop_case t d =
    let d1 = if d.scena_kols == 1 then set_doors 0 234 (set_ignition 0 d) else set_doors 1 1250 d in
    let kols = if d.scena_kols == 3 then d.scena_kols - 1 else d.scena_kols in
    let d2 =
      edit_io4 (λ i. record i { val_odo = 0 })
        (edit_io2 (λ i. record i { val_evolt = htons 12050 })
          (set_tach (htons 21) (set_speed 0 d1))) in
    record d2 {
      move_flag = 0;
      send_period = t.sp_park;
      scena_kols = if d.mirs.io1.val_dout1 == 0 then 255 else kols;
    }

-- The `switch` on the direction, after `scena_kols++`, with the step made positive.
unfoldable pub drive_case : Rumb → Terms → ℕ → Drive → Drive
drive_case park t by = park_case t
drive_case north t by = north_south true t by
drive_case south t by = north_south false t by
drive_case east t by = east_west false t by
drive_case west t by = east_west true t by
drive_case north_east t by = diagonal true false t by
drive_case north_west t by = diagonal true true t by
drive_case south_east t by = diagonal false false t by
drive_case south_west t by = diagonal false true t by
drive_case stop t by = stop_case t

unfoldable pub drive_entry : Terms → Ones → Drive → Drive
drive_entry t one d =
    drive_case one.dir t (abs one.delta) (record d { scena_kols = d.scena_kols + 1 })
