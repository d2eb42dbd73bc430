-- ===== src/Session.antt =====
-- A connection to the server: the loop `while (!Vixod && !restart_flag)` of `fmb630_task` in
-- main/fmb630.c, one round of it as a function of what the sockets, the timer counter and the
-- clock give. Printing, drawing and the waiting at the end of a round are left out.
pub mod Receiver
pub mod Boxes
pub mod Order
pub mod Frames
pub mod Timers
pub mod Outer
pub mod Grant
use Receiver.{
  Recv, fresh, from_server, recv_byte, Incoming, waiting, acked, command, overrun_buffer,
}
use Boxes.{box_timers, pin_timers}
use esp_fmb.Prelude.{
  ℕ, zero, suc, ◌+◌, ◌*◌, Bool, true, false, ◌&&◌, not, Option, none, some, List, [], ◌∷◌, ◌++◌,
  ltb, ◌==◌, if◌then◌else◌, length, bit_or,
}
use esp_fmb.Prelude.Words.{u8, u32}
use esp_fmb.Timer.{get_tmr, check_tmr, one_s}
use esp_fmb.Device.{Device, Box}
use esp_fmb.Record.{Readings, make_record, max_pk}
use esp_fmb.Command.{World, Parsed, parse_cmd}
use esp_fmb.Command.Words.{Cmd, do_report}

-- What `recv` of one byte gives: 0, nothing yet (or `select` sees no data), a byte.
pub data Sock : Type 0 where
  closed idle : Sock
  byte : ℕ → Sock

-- What a round reads of the world: whether `send` took all of the identity, of the packet and of
-- the answer, the byte received, the clock, and the timer counter at its `k`-th reading.
pub record Turn : Type 0 where
  pub imei_sent : Bool
  pub packet_sent : Bool
  pub answer_sent : Bool
  pub sock : Sock
  pub now : ℕ
  pub varta : ℕ → ℕ
  pub readings : Readings
  pub world : World

-- The variables of a connection, and the device. `sent` is what was given to `send`, the last first.
pub record Session : Type 0 where
  pub faza : ℕ
  pub first : Bool
  pub grant : Bool
  pub wait_ack : Bool
  pub vixod : Bool
  pub err : ℕ
  pub kol_pack : ℕ
  pub tmr_ack : ℕ
  pub tmr_two : ℕ
  pub wait_ack_sec : ℕ
  pub recv : Recv
  pub device : Device
  pub sent : List (List ℕ)

-- `err |= bit; Vixod = 1`.
abbrev pub fail_with : ℕ → Session → Session
fail_with bit s = record s { err = bit_or s.err bit; vixod = true }

-- The two bytes of `avl_imei.len` and the identity.
abbrev pub avl_imei : Device → List ℕ
avl_imei v = 0 ∷ 15 ∷ v.im

-- The answer of the server to the identity.
unfoldable pub await_grant : Sock → Session → Session
await_grant closed s = fail_with 2 s
await_grant idle s = s
await_grant (byte b) s =
    let s' = record s { wait_ack = false } in
    if b == 1 then record s' { grant = true; faza = 1 } else fail_with 4 s'

unfoldable pub hello : Turn → Session → Session
hello t s =
    let s' =
      if s.first
      then record s {
        first = false;
        wait_ack = true;
        tmr_ack = get_tmr (t.varta 0) s.wait_ack_sec;
        sent = avl_imei s.device ∷ s.sent;
      }
      else s in
    if s.first && not t.imei_sent
    then fail_with 1 s'
    else (if s'.wait_ack then await_grant t.sock s' else s')

unfoldable pub begin_data : Turn → Session → Session
begin_data t s =
    let v = s.device in
    if s.grant
    then record s {
      faza = 2;
      wait_ack = false;
      recv = fresh;
      device = record v { tmr_send = get_tmr (t.varta 1) 0; last_send = u32 t.now; stop_flag = 0 };
    }
    else fail_with 16 s

-- The number of samples, which grows by one every `TMR_TWO` up to `max_pk` and starts over.
abbrev pub tmr_two_period : ℕ
tmr_two_period = 600

unfoldable pub grow : Turn → Session → Session
grow t s =
    if check_tmr (t.varta 4) s.tmr_two
    then record s {
      kol_pack = if ltb max_pk (u8 (s.kol_pack + 1)) then 1 else u8 (s.kol_pack + 1);
      tmr_two = get_tmr (t.varta 5) tmr_two_period;
    }
    else s

-- Sending a packet. The second part is false after the `break` of a failed `send`.
unfoldable pub send_packet : ℕ → Turn → Session → Session × Bool
send_packet wmode t s =
    let v = s.device in
    let s1 =
      grow t (record s { device = record v { tmr_send = get_tmr (t.varta 3) v.send_period } }) in
    let (v', packet, lens) = make_record s1.kol_pack wmode t.readings s1.device in
    let s2 = record s1 { device = v'; sent = packet ∷ s1.sent } in
    if lens == 0
    then (record s1 { device = v' }, true)
    else (if t.packet_sent
        then (
          record s2 {
            wait_ack = true;
            recv = record { got = []; lenr_wait = 4; left = from_server s2.recv };
            tmr_ack = get_tmr (t.varta 6) s2.wait_ack_sec;
          },
          true,
        )
        else (fail_with 32 s2, false))

-- `com_id == 8`.
abbrev pub is_report : Option Cmd → Bool
is_report none = false
is_report (some do_report) = true
is_report (some c) = false

-- What follows an answer of `parse_cmd`.
unfoldable pub answer : Turn → Session → Parsed → Session
answer t s a =
    let d = a.device in
    let s1 = record s { device = d } in
    let s2 = record s1 { sent = a.out ∷ s1.sent } in
    if d.restart_flag
    then fail_with 64 s1
    else (if t.answer_sent
        then (if is_report a.cmd
            then record s2 { device = record d { tmr_send = get_tmr (t.varta 7) (2 * one_s) } }
            else s2)
        else fail_with 32 s2)

-- The command of the server; `none` is an overflow in `parse_cmd`.
unfoldable pub obey : Turn → Session → Option Parsed → Option Session
obey t s none = none
obey t s (some a) = some (answer t s a)

-- What a received byte leads to; `none` is an overflow of `from_server` or in `parse_cmd`.
unfoldable pub deliver : Turn → Session → Incoming → Option Session
deliver t s waiting = some s
deliver t s acked = some (record s { wait_ack = false })
deliver t s (command ctype scmd) = obey t s (parse_cmd t.world ctype scmd s.device)
deliver t s overrun_buffer = none

unfoldable pub receive : Turn → Session → Sock → Option Session
receive t s closed = some (fail_with 2 s)
receive t s idle = some s
receive t s (byte b) = let (r, got) = recv_byte b s.recv in deliver t (record s { recv = r }) got

unfoldable pub exchange : ℕ → Turn → Session → Option Session
exchange wmode t s =
    if not s.wait_ack && check_tmr (t.varta 2) s.device.tmr_send
    then (let (s', go_on) = send_packet wmode t s in if go_on then receive t s' t.sock else some s')
    else receive t s t.sock

-- The `switch` on the phase.
unfoldable pub phase : ℕ → Turn → Session → Option Session
phase wmode t s =
    if s.faza == 0
    then some (hello t s)
    else (if s.faza == 1
        then some (begin_data t s)
        else (if s.faza == 2 then exchange wmode t s else some s))

-- The time limit of an answer.
unfoldable pub ack_timeout : Turn → Session → Session
ack_timeout t s = if s.wait_ack && check_tmr (t.varta 8) s.tmr_ack then fail_with 8 s else s

-- The end of a round.
unfoldable pub finish : Turn → Option Session → Option Session
finish t none = none
finish t (some s) =
    let s' = ack_timeout t s in
    some (record s' { device = pin_timers t.varta (box_timers t.varta s'.device) })

-- One round.
unfoldable pub round : ℕ → Turn → Session → Option Session
round wmode t s = finish t (phase wmode t s)
