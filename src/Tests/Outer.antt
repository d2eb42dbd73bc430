-- ===== src/Tests/Outer.antt =====
-- A run of the emulator's task: a session that the server closes at once.
use esp_fmb.Prelude.{◌⊎◌, ◌≡◌, refl, arith, true, false, none, some, [], ◌∷◌}
use esp_fmb.Scenario.{del_all_ones}
use esp_fmb.Mirror.{init_mirror}
use esp_fmb.Device.{Device}
use esp_fmb.Config.{no_conf}
use esp_fmb.Session.{
  Session, Turn, closed, byte, avl_imei, round, phase, hello, await_grant, finish, ack_timeout,
}
use esp_fmb.Timer.{check_tmr, get_tmr}
use esp_fmb.Session.Boxes.{box_timers, pin_timers}
use esp_fmb.Session.Outer.{
  Outer, set_device, set_up, begin_session, run_rounds, Visit, visit, visits, fmb630_task,
}
use esp_fmb.Session.Grant.{begin_session-ungranted}
use esp_fmb.Session.Outer.Laws.{Ended, begin_session-fails, fmb630_task-closes}
use esp_fmb.Tests.Device.{at_entry}
use esp_fmb.Tests.Sessions.{ungranted, quiet_turn}

abbrev start_outer : Outer
start_outer = record {
  session = record ungranted { vixod = false; err = 255 };
  line = [];
  tcp_port = 0;
  work_mode = 1;
  wait_before_new_connect = 100;
  first_lat = none;
  first_lon = none;
  one = false;
  sockets = [];
  dialled = [];
}

abbrev closed_turn : Turn
closed_turn = record quiet_turn { sock = closed }

abbrev begun : Session
begun = record ungranted {
  faza = 0;
  first = false;
  grant = false;
  wait_ack = true;
  vixod = true;
  err = 2;
  kol_pack = 1;
  tmr_ack = 180;
  tmr_two = 630;
  device =
      let d : Device = record (at_entry 1) { stop_flag = 0; tmr_evt = 330 } in
      pin_timers (λ k. 30) (box_timers (λ k. 30) d);
  sent = avl_imei (at_entry 1) ∷ [];
}

session_runs :
    run_rounds 1 (closed_turn ∷ []) (begin_session (λ k. 30) start_outer).session ≡ some begun
unfolding run_rounds begin_session round phase hello await_grant finish ack_timeout check_tmr
    get_tmr
session_runs = refl

begin_session-fails_example : Ended begun
begin_session-fails_example =
    begin_session-fails (λ k. 30) start_outer (closed_turn ∷ []) begun session_runs refl

-- The server answers 0.
abbrev refused_turn : Turn
refused_turn = record quiet_turn { sock = byte 0 }

abbrev refused : Session
refused = record begun { err = 4; wait_ack = false }

refused_runs :
    run_rounds 1 (refused_turn ∷ []) (begin_session (λ k. 30) start_outer).session ≡ some refused
unfolding run_rounds begin_session round phase hello await_grant finish ack_timeout check_tmr
    get_tmr
refused_runs = refl

begin_session-ungranted_example :
    (refused.grant ≡ false) × ((refused.sent ≡ []) ⊎ (refused.sent ≡ avl_imei (at_entry 1) ∷ []))
begin_session-ungranted_example =
    begin_session-ungranted (λ k. 30) start_outer (refused_turn ∷ []) refused (omega arith, tt)
      refused_runs

abbrev a_visit : Visit
a_visit = record { socket = some 3; connected = true; varta = λ k. 30; turns = closed_turn ∷ [] }

-- After the visit, with an empty configuration.
abbrev last_device : Device
last_device =
    let v : Device = set_device no_conf (at_entry 1) in
    let w : Device = record v {
      stop_flag = 0;
      tmr_evt = 330;
      mirror = init_mirror none none v.mirror;
    } in
    let d : Device = pin_timers (λ k. 30) (box_timers (λ k. 30) w) in
    record d { records = del_all_ones d.records }

abbrev last_outer : Outer
last_outer = record start_outer {
  session = record begun {
    device = last_device;
    sent = avl_imei (set_device no_conf (at_entry 1)) ∷ [];
  };
  line = no_conf.srv;
  work_mode = 0;
  dialled = (no_conf.srv, 0) ∷ [];
}

task_runs : fmb630_task true no_conf (a_visit ∷ []) start_outer ≡ some last_outer
unfolding fmb630_task visits visit set_up run_rounds begin_session round phase hello await_grant
    finish ack_timeout check_tmr get_tmr set_device
task_runs = refl

fmb630_task-closes_example :
    (last_outer.sockets ≡ []) × (last_outer.session.device.records.first ≡ [])
fmb630_task-closes_example =
    fmb630_task-closes no_conf (a_visit ∷ []) start_outer last_outer (omega arith, tt) task_runs
