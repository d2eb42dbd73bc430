-- ===== src/Record/Invariant.antt =====
-- What holds of the device between two packets.
use esp_fmb.Prelude.{
  ℕ, ◌+◌, ◌%◌, ◌≤◌, ◌<◌, inl, inr, Bool, true, false, arith, Bool-cases, Option-cases, ◌==◌,
  if◌then◌else◌, ltb, max, not, ◌||◌,
}
use esp_fmb.Prelude.Words.{u8}
use esp_fmb.Prelude.Int.{pos, abs, le_pos}
use esp_fmb.Scenario.{
  Ones, get_ones, Rumb, park, north, east, south, west, north_east, north_west, south_east,
  south_west, stop,
}
use esp_fmb.Mirror.{Mir}
use esp_fmb.Mirror.Laws.{IsBytes}
use esp_fmb.Timer.{check_tmr}
use esp_fmb.Device.{Device}
use esp_fmb.Record.Cases.{
  Drive, Terms, drive_case, drive_entry, park_case, stop_case, north_south, east_west, diagonal,
  cruise, burn, odometer, set_speed, set_tach, set_doors, set_ignition, move_lat, move_lon, turn,
  refuel,
}
use esp_fmb.Record.{Readings, rnd, advance, scenario_step, refresh, terms_of}

burn-IsBytes : (d : Drive) → IsBytes d.mirs → IsBytes (burn d).mirs
unfolding burn
burn-IsBytes d v = elim (Bool-cases (u8 (d.cdut + 255) % 4 == 0)) [
  | inl e ↦ rw e (omega arith)
  | inr e ↦ rw e v
]

cruise-IsBytes :
    (tach gain : ℕ) (t : Terms) (d : Drive) → IsBytes d.mirs → IsBytes (cruise tach gain t d).mirs
unfolding cruise set_speed odometer set_tach
cruise-IsBytes tach gain t d v = burn-IsBytes _ (omega arith)

refuel-IsBytes : (bit16 : ℕ) (d : Drive) → IsBytes d.mirs → IsBytes (refuel bit16 d).mirs
unfolding refuel set_tach
refuel-IsBytes bit16 d v = elim (Bool-cases (ltb 1275 bit16)) [
  | inl e ↦ rw e (omega arith)
  | inr e ↦ rw e (omega arith)
]

park_case-IsBytes : (t : Terms) (d : Drive) → IsBytes d.mirs → IsBytes (park_case t d).mirs
unfolding park_case set_speed set_doors set_tach set_ignition
park_case-IsBytes t d v = elim (Bool-cases (d.mirs.io1.val_dout1 == 0)) [
  | inl locked ↦ rw locked (omega arith)
  | inr unlocked ↦ rw unlocked (refuel-IsBytes _ _ (omega arith))
]

stop_case-IsBytes : (t : Terms) (d : Drive) → IsBytes d.mirs → IsBytes (stop_case t d).mirs
unfolding stop_case set_speed set_doors set_tach set_ignition
stop_case-IsBytes t d v = elim (Bool-cases (d.scena_kols == 1)) [
  | inl e ↦ rw e (omega arith)
  | inr e ↦ rw e (omega arith)
]

-- The position is in fields of several bytes.
reposition :
    (latitude longitude angle altitude : ℕ) (m : Mir)
    → IsBytes m
    → let g = m.gsm in
      IsBytes (record m {
        gsm = record g {
          latitude = latitude;
          longitude = longitude;
          angle = angle;
          altitude = altitude;
        };
      })
reposition latitude longitude angle altitude m v = record {
  gsm = v.gsm;
  ids1 = v.ids1;
  vals1 = v.vals1;
  ids2 = v.ids2;
  ids4 = v.ids4;
}

north_south-IsBytes :
    (is_north : Bool) (t : Terms) (by : ℕ) (d : Drive)
    → IsBytes d.mirs
    → IsBytes (north_south is_north t by d).mirs
unfolding north_south move_lat turn
north_south-IsBytes true t by d v = reposition _ _ _ _ _ (cruise-IsBytes _ 8 t d v)
north_south-IsBytes false t by d v = reposition _ _ _ _ _ (cruise-IsBytes _ 8 t d v)

east_west-IsBytes :
    (is_west : Bool) (t : Terms) (by : ℕ) (d : Drive)
    → IsBytes d.mirs
    → IsBytes (east_west is_west t by d).mirs
unfolding east_west move_lon turn
east_west-IsBytes true t by d v = reposition _ _ _ _ _ (cruise-IsBytes _ 5 t d v)
east_west-IsBytes false t by d v = reposition _ _ _ _ _ (cruise-IsBytes _ 5 t d v)

diagonal-IsBytes :
    (is_north is_west : Bool) (t : Terms) (by : ℕ) (d : Drive)
    → IsBytes d.mirs
    → IsBytes (diagonal is_north is_west t by d).mirs
unfolding diagonal move_lat move_lon turn
diagonal-IsBytes is_north is_west t by d v = reposition _ _ _ _ _ (cruise-IsBytes _ 8 t d v)

drive_case-IsBytes :
    (dir : Rumb) (t : Terms) (by : ℕ) (d : Drive)
    → IsBytes d.mirs
    → IsBytes (drive_case dir t by d).mirs
unfolding drive_case
drive_case-IsBytes park t by d v = park_case-IsBytes t d v
drive_case-IsBytes stop t by d v = stop_case-IsBytes t d v
drive_case-IsBytes north t by d v = north_south-IsBytes true t by d v
drive_case-IsBytes south t by d v = north_south-IsBytes false t by d v
drive_case-IsBytes west t by d v = east_west-IsBytes true t by d v
drive_case-IsBytes east t by d v = east_west-IsBytes false t by d v
drive_case-IsBytes north_west t by d v = diagonal-IsBytes true true t by d v
drive_case-IsBytes north_east t by d v = diagonal-IsBytes true false t by d v
drive_case-IsBytes south_west t by d v = diagonal-IsBytes false true t by d v
drive_case-IsBytes south_east t by d v = diagonal-IsBytes false false t by d v

-- The fields of one byte hold bytes, and the current entry is one of the scenario, or the first.
pub record IsValid (v : Device) : Type 0 where
  pub bytes : IsBytes v.mirror
  pub prio : v.prio < 256
  pub index_pos : 1 ≤ v.scena_index
  pub index_le : v.scena_index ≤ max 1 v.scena_total

advance-IsValid : (one : Ones) (v : Device) → IsValid v → IsValid (advance one v)
unfolding advance
advance-IsValid one v h = elim (Bool-cases (le_pos one.kols v.scena_kols)) [
  | inl e ↦
      rw e (record {
        bytes = h.bytes;
        prio = h.prio;
        index_pos = ground arith;
        index_le = ground arith;
      })
  | inr e ↦ rw e h
]

pub scenario_step-IsValid :
    (wmode : ℕ) (r : Readings) (v : Device) → IsValid v → IsValid (scenario_step wmode r v)
unfolding scenario_step drive_entry
scenario_step-IsValid wmode r v h = elim (Bool-cases (wmode == 1)) [
  | inl e ↦ rw e (elim (Option-cases (get_ones (pos v.scena_index) v.records)) [
    | inl none_left ↦ rw none_left h
    | inr (one, found) ↦ rw found (
        advance-IsValid one _ (record {
          bytes = drive_case-IsBytes one.dir (terms_of r v) (abs one.delta) _ h.bytes;
          prio = h.prio;
          index_pos = h.index_pos;
          index_le = h.index_le;
        }))
  ])
  | inr e ↦
      rw e
        (record { bytes = h.bytes; prio = h.prio; index_pos = h.index_pos; index_le = h.index_le })
]

fit_satellites :
    (fired : Bool) (rand old : ℕ) → old < 256 → (if fired then rnd rand 18 else old) < 256
unfolding rnd
fit_satellites fired rand old h = ground arith

fit_moves : (b : Bool) → (if b then 1 else 0) < 256
fit_moves b = ground arith

pub refresh-IsValid : (r : Readings) (v : Device) → IsValid v → IsValid (refresh r v)
unfolding refresh
refresh-IsValid r v h = record {
  bytes = omega (
    arith,
    fit_satellites (check_tmr r.varta_evt v.tmr_evt) r.rand v.mirror.gsm.sattelites (omega arith),
    fit_moves (not (v.mirror.gsm.speed == 0) || not (v.mirror.io2.val_speed == 0)),
    h.bytes,
    h.prio,
  );
  prio = omega arith;
  index_pos = h.index_pos;
  index_le = h.index_le;
}
