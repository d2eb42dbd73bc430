-- ===== src/Record/Stop.antt =====
-- How long a stop lasts. The configuration file gives the number of measurements.
use esp_fmb.Prelude.{
  ℕ, ◌+◌, ◌≤◌, ◌≡◌, ◌≢◌, refl, ◌∙◌, false, some, List, [], ◌∷◌, arith, ◌==◌, inl, inr, Bool-cases,
}
use esp_fmb.Prelude.Int.{pos, le_pos, ℤ, negsuc}
use esp_fmb.Scenario.{Ones, get_ones, stop}
use esp_fmb.Mirror.{Mir}
use esp_fmb.Device.{Device}
use esp_fmb.Record.Cases.{
  Drive, Terms, drive_case, drive_entry, stop_case, set_speed, set_doors, set_tach, set_ignition,
}
use esp_fmb.Record.{
  Readings, make_record, scenario_step, advance, refresh, copies, stamp, drive_of, terms_of,
}

-- The current entry is a stop of three measurements or more, two of them at most are counted, and
-- the fuel pump is unlocked.
pub record Stopped (one : Ones) (v : Device) : Type 0 where
  pub entry : get_ones (pos v.scena_index) v.records ≡ some one
  pub stops : one.dir ≡ stop
  pub long : le_pos one.kols 2 ≡ false
  pub early : v.scena_kols ≤ 2
  pub pump : v.mirror.io1.val_dout1 ≢ 0

copies-dout1 :
    (time_copy : ℕ → ℕ) (n i : ℕ) (m : Mir)
    → (copies time_copy n i m).1.io1.val_dout1 ≡ m.io1.val_dout1
unfolding copies
copies-dout1 time_copy ℕ.zero i m = refl
copies-dout1 time_copy (ℕ.suc n) i m = copies-dout1 time_copy n (i + 1) (stamp (time_copy i) m)

stop_case-dout1 :
    (t : Terms) (d : Drive) → (stop_case t d).mirs.io1.val_dout1 ≡ d.mirs.io1.val_dout1
unfolding stop_case set_speed set_doors set_tach set_ignition
stop_case-dout1 t d = elim (Bool-cases (d.scena_kols == 1)) [
  | inl e ↦ rw e refl
  | inr e ↦ rw e refl
]

stop_case-kols :
    (t : Terms) (d : Drive)
    → d.scena_kols ≤ 3
    → d.mirs.io1.val_dout1 ≢ 0
    → (stop_case t d).scena_kols ≤ 2
unfolding stop_case
stop_case-kols t d h ne = ground arith

le_pos_mono : (z : ℤ) (a b : ℕ) → a ≤ b → le_pos z b ≡ false → le_pos z a ≡ false
le_pos_mono (pos n) a b h e = ground arith
le_pos_mono (negsuc n) a b h e = e

entered :
    (t : Terms) (one : Ones) (d : Drive)
    → one.dir ≡ stop
    → d.scena_kols ≤ 2
    → d.mirs.io1.val_dout1 ≢ 0
    → ((drive_entry t one d).scena_kols ≤ 2)
      × ((drive_entry t one d).mirs.io1.val_dout1 ≡ d.mirs.io1.val_dout1)
unfolding drive_entry drive_case
entered t one d e h ne = rw e (stop_case-kols t _ (omega arith) ne, stop_case-dout1 t _)

-- A measurement of such a stop leaves the entry and the count where they are.
scenario_step-Stopped :
    (one : Ones) (r : Readings) (v : Device)
    → Stopped one v
    → Stopped one (scenario_step 1 r v) × ((scenario_step 1 r v).scena_index ≡ v.scena_index)
unfolding scenario_step advance
scenario_step-Stopped one r v h =
    rw (h.entry, waits)
      (
        record {
          entry = h.entry;
          stops = h.stops;
          long = h.long;
          early = counted.0;
          pump = rw counted.1 h.pump;
        },
        refl,
      )
  where
    begun : Drive
    begun = drive_entry (terms_of r v) one (drive_of v)

    counted : (begun.scena_kols ≤ 2) × (begun.mirs.io1.val_dout1 ≡ v.mirror.io1.val_dout1)
    counted = entered (terms_of r v) one (drive_of v) h.stops h.early h.pump

    waits : le_pos one.kols begun.scena_kols ≡ false
    waits = le_pos_mono one.kols begun.scena_kols 2 counted.0 h.long

refresh-Stopped :
    (one : Ones) (r : Readings) (v : Device)
    → Stopped one v
    → Stopped one (refresh r v) × ((refresh r v).scena_index ≡ v.scena_index)
unfolding refresh
refresh-Stopped one r v h = (
  record { entry = h.entry; stops = h.stops; long = h.long; early = h.early; pump = h.pump },
  refl,
)

make_record-Stopped :
    (one : Ones) (kolpack : ℕ) (r : Readings) (v : Device)
    → Stopped one v
    → Stopped one (make_record kolpack 1 r v).0
      × ((make_record kolpack 1 r v).0.scena_index ≡ v.scena_index)
unfolding make_record
make_record-Stopped one kolpack r v h = elim (Bool-cases r.allocated) [
  | inl e ↦ simp e (
    record {
      entry = kept.0.entry;
      stops = h.stops;
      long = h.long;
      early = kept.0.early;
      pump = rw copies-dout1 kept.0.pump;
    },
    kept.1 ∙ began.1,
  )
  | inr e ↦ simp e (
    record { entry = h.entry; stops = h.stops; long = h.long; early = h.early; pump = h.pump },
    refl,
  )
]
  where
    began : Stopped one (scenario_step 1 r v) × ((scenario_step 1 r v).scena_index ≡ v.scena_index)
    began = scenario_step-Stopped one r v h

    kept :
        Stopped one (refresh r (scenario_step 1 r v))
        × ((refresh r (scenario_step 1 r v)).scena_index ≡ (scenario_step 1 r v).scena_index)
    kept = refresh-Stopped one r (scenario_step 1 r v) began.0

-- The device after some packets in the scenario mode, each with its number of samples.
pub after_records : List (ℕ × Readings) → Device → Device
after_records [] v = v
after_records ((kolpack, r) ∷ more) v = after_records more (make_record kolpack 1 r v).0

-- At a stop of three or more measurements of which at most two are counted, with the pump unlocked,
-- the stop never ends: after any number of packets, whatever the clocks show, the scenario is at
-- the same entry.
pub after_records-Stopped :
    (one : Ones) (rs : List (ℕ × Readings)) (v : Device)
    → Stopped one v
    → (after_records rs v).scena_index ≡ v.scena_index
unfolding after_records
after_records-Stopped one [] v h = refl
after_records-Stopped one ((kolpack, r) ∷ more) v h =
    let (h', same) = make_record-Stopped one kolpack r v h in
    after_records-Stopped one more _ h' ∙ same
