-- ===== src/Tests/Records.antt =====
-- The records of a device, and its scenario.
use esp_fmb.Prelude.{◌≤◌, ◌≡◌, refl, none, [], ◌∷◌, ◌++◌, length, arith}
use esp_fmb.Frame.{avl_frame}
use esp_fmb.Scenario.{north_west}
use esp_fmb.Scenario.Laws.{get_ones-add_all}
use esp_fmb.Mirror.Laws.{mirror-IsBytes}
use esp_fmb.Device.{Device}
use esp_fmb.Record.{make_record, clamp_pk, drive_of, terms_of}
use esp_fmb.Record.Cases.{drive_case}
use esp_fmb.Record.Motion.{Moved, drive_case-Moved}
use esp_fmb.Record.Invariant.{IsValid}
use esp_fmb.Record.Result.{samples_of, make_record-frame, make_record-length, make_record-IsValid}
use esp_fmb.Record.Stop.{Stopped, after_records, after_records-Stopped}
use esp_fmb.Tests.Device.{halt, route, at_entry, readings}

at_entry-IsValid : IsValid (at_entry 1)
at_entry-IsValid = record {
  bytes = mirror-IsBytes none none;
  prio = omega arith;
  index_pos = omega arith;
  index_le = omega arith;
}

make_record-frame_example :
    (make_record 2 1 readings (at_entry 1)).1
    ≡ avl_frame (8 ∷ clamp_pk 2 ∷ samples_of 2 1 readings (at_entry 1) ++ clamp_pk 2 ∷ [])
make_record-frame_example = make_record-frame 2 1 readings (at_entry 1) at_entry-IsValid refl

make_record-length_example :
    ((make_record 2 1 readings (at_entry 1)).2 ≡ length (make_record 2 1 readings (at_entry 1)).1)
    × ((make_record 2 1 readings (at_entry 1)).2 ≤ 4096)
make_record-length_example = make_record-length 2 1 readings (at_entry 1) at_entry-IsValid refl

make_record-IsValid_example : IsValid (make_record 2 1 readings (at_entry 1)).0
make_record-IsValid_example = make_record-IsValid 2 1 readings (at_entry 1) at_entry-IsValid refl

drive_case-Moved_example :
    Moved north_west 15
      (drive_of (at_entry 1)).mirs.gsm
      (drive_case north_west (terms_of readings (at_entry 1)) 15 (drive_of (at_entry 1))).mirs.gsm
drive_case-Moved_example =
    drive_case-Moved north_west (terms_of readings (at_entry 1)) 15 (drive_of (at_entry 1))

-- The stop, with the pump unlocked and two measurements counted.
abbrev halted : Device
halted =
    let v = at_entry 2 in
    let m = v.mirror in
    let i = m.io1 in
    record v { scena_kols = 2; mirror = record m { io1 = record i { val_dout1 = 1 } } }

halted-Stopped : Stopped halt halted
halted-Stopped = record {
  entry = get_ones-add_all route 1 (omega arith);
  stops = refl;
  long = refl;
  early = omega arith;
  pump = omega arith;
}

after_records-Stopped_example :
    (after_records ((1, readings) ∷ (3, readings) ∷ []) halted).scena_index ≡ 2
after_records-Stopped_example =
    after_records-Stopped halt ((1, readings) ∷ (3, readings) ∷ []) halted halted-Stopped
