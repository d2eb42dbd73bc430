-- ===== src/Tests/Device.antt =====
-- A device, its scenario and its readings, for the tests.
use esp_fmb.Prelude.{ℕ, ◌+◌, true, false, none, List, [], ◌∷◌}
use esp_fmb.Prelude.Int.{pos}
use esp_fmb.Prelude.Text.{codes}
use esp_fmb.Scenario.{Ones, north_west, stop, no_records, add_all}
use esp_fmb.Mirror.{mirror, init_mirror, info_of}
use esp_fmb.Device.{Device, Box}
use esp_fmb.Record.{Readings}

-- A scenario of a leg to the north west and a stop of five measurements.
abbrev leg : Ones
leg = record { dir = north_west; delta = pos 150; kols = pos 4 }

abbrev pub halt : Ones
halt = record { dir = stop; delta = pos 0; kols = pos 5 }

abbrev pub route : List Ones
route = leg ∷ halt ∷ []

abbrev pub relay_on : Box
relay_on = record { stat = 1; time = 20 }

abbrev pub relay_off : Box
relay_off = record { stat = 0; time = 0 }

-- A device at the entry `entry` of the scenario.
abbrev pub at_entry : ℕ → Device
at_entry entry = record {
  mirror = init_mirror none none mirror;
  gsm_info = info_of (init_mirror none none mirror).gsm;
  im = codes "351580051430040";
  records = add_all route no_records;
  scena_kols = 0;
  scena_index = entry;
  scena_total = 2;
  move_flag = 0;
  stop_flag = 0;
  sp_park = 600;
  sp_move = 60;
  send_period = 60;
  prio = 0;
  cdut = 3;
  tmr_send = 0;
  tmr_evt = 300;
  last_send = 1000;
  box =
      relay_on ∷ relay_off ∷ relay_off ∷ relay_off ∷ relay_off ∷ relay_off ∷ relay_off ∷ relay_off
      ∷ [];
  tmr_box = 40 ∷ 0 ∷ 0 ∷ 0 ∷ 0 ∷ 0 ∷ 0 ∷ 0 ∷ [];
  pin = relay_on ∷ relay_off ∷ relay_off ∷ relay_off ∷ [];
  tmr_pin = 0 ∷ 0 ∷ 0 ∷ 0 ∷ [];
  restart_flag = false;
}

abbrev pub readings : Readings
readings = record {
  allocated = true;
  time_way = 1006;
  varta_evt = 250;
  varta_evt_set = 250;
  rand = 77;
  time_stamp = 1006;
  time_copy = λ i. 1006 + i;
  time_sent = 1007;
  varta_send = 251;
}
