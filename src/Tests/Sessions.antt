-- ===== src/Tests/Sessions.antt =====
-- Sessions, and the bytes of the server.
use esp_fmb.Prelude.{◌≡◌, refl, true, false, none, some, [], ◌∷◌, ◌++◌, get_or, arith}
use esp_fmb.Prelude.Text.{codes, strstr}
use esp_fmb.Session.{Session, Turn, idle, fail_with, round, phase, begin_data, finish, ack_timeout}
use esp_fmb.Session.Order.{Coded}
use esp_fmb.Session.Receiver.{fresh, command}
use esp_fmb.Session.Frames.{recv_all, command_frame, recv_all-command}
use esp_fmb.Session.Boxes.{off, box_timers, pin_timers}
use esp_fmb.Session.Timers.{Timed, box_timers-Timed, dout_of, pin_timers-Timed}
use esp_fmb.Tests.Device.{relay_on, relay_off, at_entry, readings}

no_line_end : strstr (codes "getio") (codes "\r\n") ≡ none
unfolding strstr
no_line_end = refl

recv_all-command_example :
    recv_all (command_frame 5 (codes "getio") ++ 0 ∷ 0 ∷ []) fresh
    ≡ ((recv_all (0 ∷ 0 ∷ []) fresh).0, command 5 (codes "getio") ∷ (recv_all (0 ∷ 0 ∷ []) fresh).1)
recv_all-command_example =
    recv_all-command 5 (codes "getio") (0 ∷ 0 ∷ []) (omega arith)
      (omega arith, (omega arith, (omega arith, (omega arith, (omega arith, tt))))) no_line_end

-- The time of the first relay has come.
box_timers-Timed_example :
    Timed 50 40 40 0 (get_or (box_timers (λ k. 50) (at_entry 1)).tmr_box 0 0)
    × Timed 50 40 relay_on relay_off (get_or (box_timers (λ k. 50) (at_entry 1)).box 0 off)
box_timers-Timed_example = box_timers-Timed (λ k. 50) (at_entry 1) 0 refl (omega arith)

-- The timer of the first output is not set.
pin_timers-Timed_example :
    Timed 50 0 0 0 (get_or (pin_timers (λ k. 50) (at_entry 1)).tmr_pin 0 0)
    × Timed 50 0 relay_on relay_off (get_or (pin_timers (λ k. 50) (at_entry 1)).pin 0 off)
    × Timed 50 0
        (dout_of 0 (at_entry 1).mirror.io1)
        0
        (dout_of 0 (pin_timers (λ k. 50) (at_entry 1)).mirror.io1)
pin_timers-Timed_example = pin_timers-Timed (λ k. 50) (at_entry 1) 0 refl refl (omega arith)

-- A connection without a grant in the second phase.
abbrev pub ungranted : Session
ungranted = record {
  faza = 1;
  first = false;
  grant = false;
  wait_ack = false;
  vixod = false;
  err = 0;
  kol_pack = 1;
  tmr_ack = 150;
  tmr_two = 600;
  wait_ack_sec = 150;
  recv = fresh;
  device = at_entry 1;
  sent = [];
}

abbrev pub quiet_turn : Turn
quiet_turn = record {
  imei_sent = true;
  packet_sent = true;
  answer_sent = true;
  sock = idle;
  now = 1006;
  varta = λ k. 30;
  readings = readings;
  world = record { varta = λ k. 30; time = 1006; gps_text = λ m. codes "GPS:1" };
}

abbrev ended : Session
ended =
    let s = fail_with 16 ungranted in
    record s { device = pin_timers (λ k. 30) (box_timers (λ k. 30) (at_entry 1)) }

ungranted-Coded : Coded ungranted
ungranted-Coded e = cc e

round_runs : round 1 quiet_turn ungranted ≡ some ended
unfolding round phase begin_data finish ack_timeout
round_runs = refl
