-- ===== src/Session/Order.antt =====
-- How a connection ends.
use esp_fmb.Prelude.{
  ℕ, ◌≤◌, ◌≡◌, subst, true, false, ◌&&◌, not, Option, none, some, ◌==◌, bit_or, inl, inr,
  Bool-cases, arith,
}
use esp_fmb.Prelude.Or.{le-bit_or}
use esp_fmb.Timer.{get_tmr, check_tmr}
use esp_fmb.Record.{make_record}
use esp_fmb.Command.{Parsed, parse_cmd}
use esp_fmb.Session.Receiver.{recv_byte, Incoming, waiting, acked, command, overrun_buffer}
use esp_fmb.Session.{
  Sock, closed, idle, byte, Turn, Session, fail_with, await_grant, hello, begin_data, grow,
  send_packet, is_report, answer, obey, deliver, receive, exchange, phase, ack_timeout, finish,
  round,
}

-- A connection that has ended has an error code.
abbrev pub Coded : Session → Type 0
Coded s = s.vixod ≡ true → 1 ≤ s.err

abbrev CodedOption : Option Session → Type 0
CodedOption none = Unit
CodedOption (some s) = Coded s

nonzero : (err bit : ℕ) → 1 ≤ bit → 1 ≤ bit_or err bit
nonzero err bit h = omega (arith, le-bit_or err bit)

fail_with-Coded : (bit : ℕ) (s : Session) → 1 ≤ bit → Coded (fail_with bit s)
fail_with-Coded bit s h = λ _. omega (arith, le-bit_or s.err bit)

await_grant-Coded : (k : Sock) (s : Session) → Coded s → Coded (await_grant k s)
unfolding await_grant
await_grant-Coded closed s h = fail_with-Coded 2 s (omega arith)
await_grant-Coded idle s h = h
await_grant-Coded (byte b) s h = elim (Bool-cases (b == 1)) [
  | inl e ↦ rw e h
  | inr e ↦ rw e (fail_with-Coded 4 (record s { wait_ack = false }) (omega arith))
]

ack_timeout-Coded : (t : Turn) (s : Session) → Coded s → Coded (ack_timeout t s)
unfolding ack_timeout
ack_timeout-Coded t s h = elim (Bool-cases (s.wait_ack && check_tmr (t.varta 8) s.tmr_ack)) [
  | inl e ↦ rw e (fail_with-Coded 8 s (omega arith))
  | inr e ↦ rw e h
]

begin_data-Coded : (t : Turn) (s : Session) → Coded s → Coded (begin_data t s)
unfolding begin_data
begin_data-Coded t s h = elim (Bool-cases s.grant) [
  | inl e ↦ rw e h
  | inr e ↦ rw e (fail_with-Coded 16 s (omega arith))
]

hello-Coded : (t : Turn) (s : Session) → Coded s → Coded (hello t s)
unfolding hello
hello-Coded t s h = elim (Bool-cases s.first) [
  | inl first ↦ elim (Bool-cases t.imei_sent) [
    | inl gone ↦ simp (first, gone) (await_grant-Coded t.sock _ h)
    | inr lost ↦ simp (first, lost) (λ _. nonzero s.err 1 (omega arith))
  ]
  | inr again ↦ elim (Bool-cases s.wait_ack) [
    | inl e ↦ simp (again, e) (await_grant-Coded t.sock s h)
    | inr e ↦ simp (again, e) h
  ]
]

grow-Coded : (t : Turn) (s : Session) → Coded s → Coded (grow t s)
unfolding grow
grow-Coded t s h = elim (Bool-cases (check_tmr (t.varta 4) s.tmr_two)) [
  | inl e ↦ rw e h
  | inr e ↦ rw e h
]

send_packet-Coded : (wmode : ℕ) (t : Turn) (s : Session) → Coded s → Coded (send_packet wmode t s).0
unfolding send_packet
send_packet-Coded wmode t s h =
    let v = s.device in
    let s1 =
      grow t (record s { device = record v { tmr_send = get_tmr (t.varta 3) v.send_period } }) in
    let h1 : Coded s1 = grow-Coded t _ h in
    elim (Bool-cases ((make_record s1.kol_pack wmode t.readings s1.device).2 == 0)) [
      | inl e ↦ rw e h1
      | inr e ↦ elim (Bool-cases t.packet_sent) [
        | inl gone ↦ simp (e, gone) h1
        | inr lost ↦ simp (e, lost) (λ _. nonzero s1.err 32 (omega arith))
      ]
    ]

answer-Coded : (t : Turn) (s : Session) (a : Parsed) → Coded s → Coded (answer t s a)
unfolding answer
answer-Coded t s a h = elim (Bool-cases a.device.restart_flag) [
  | inl now ↦ simp now (λ _. nonzero s.err 64 (omega arith))
  | inr on ↦ elim (Bool-cases t.answer_sent) [
    | inr lost ↦ simp (on, lost) (λ _. nonzero s.err 32 (omega arith))
    | inl gone ↦ elim (Bool-cases (is_report a.cmd)) [
      | inl r ↦ simp (on, gone, r) h
      | inr r ↦ simp (on, gone, r) h
    ]
  ]
]

obey-Coded : (t : Turn) (s : Session) (p : Option Parsed) → Coded s → CodedOption (obey t s p)
unfolding obey
obey-Coded t s none h = tt
obey-Coded t s (some a) h = answer-Coded t s a h

deliver-Coded : (t : Turn) (s : Session) (i : Incoming) → Coded s → CodedOption (deliver t s i)
unfolding deliver
deliver-Coded t s waiting h = h
deliver-Coded t s acked h = h
deliver-Coded t s (command ctype scmd) h = obey-Coded t s (parse_cmd t.world ctype scmd s.device) h
deliver-Coded t s overrun_buffer h = tt

receive-Coded : (t : Turn) (s : Session) (k : Sock) → Coded s → CodedOption (receive t s k)
unfolding receive
receive-Coded t s closed h = fail_with-Coded 2 s (omega arith)
receive-Coded t s idle h = h
receive-Coded t s (byte b) h =
    deliver-Coded t (record s { recv = (recv_byte b s.recv).0 }) (recv_byte b s.recv).1 h

exchange-Coded : (wmode : ℕ) (t : Turn) (s : Session) → Coded s → CodedOption (exchange wmode t s)
unfolding exchange
exchange-Coded wmode t s h =
    let sent = send_packet-Coded wmode t s h in
    elim (Bool-cases (not s.wait_ack && check_tmr (t.varta 2) s.device.tmr_send)) [
      | inr e ↦ rw e (receive-Coded t s t.sock h)
      | inl e ↦ elim (Bool-cases (send_packet wmode t s).1) [
        | inl on ↦ rw (e, on) (receive-Coded t (send_packet wmode t s).0 t.sock sent)
        | inr off ↦ rw (e, off) sent
      ]
    ]

phase-Coded : (wmode : ℕ) (t : Turn) (s : Session) → Coded s → CodedOption (phase wmode t s)
unfolding phase
phase-Coded wmode t s h = elim (Bool-cases (s.faza == 0)) [
  | inl e ↦ rw e (hello-Coded t s h)
  | inr e ↦ elim (Bool-cases (s.faza == 1)) [
    | inl e1 ↦ rw (e, e1) (begin_data-Coded t s h)
    | inr e1 ↦ elim (Bool-cases (s.faza == 2)) [
      | inl e2 ↦ rw (e, e1, e2) (exchange-Coded wmode t s h)
      | inr e2 ↦ rw (e, e1, e2) h
    ]
  ]
]

finish-Coded : (t : Turn) (p : Option Session) → CodedOption p → CodedOption (finish t p)
unfolding finish
finish-Coded t none h = tt
finish-Coded t (some s) h = ack_timeout-Coded t s h

-- From a connection that has not ended, or has an error code, whatever the sockets, the clock and
-- the timers show: if it has ended after a round, there is an error code.
pub round-fails :
    (wmode : ℕ) (t : Turn) (s s' : Session)
    → Coded s
    → round wmode t s ≡ some s'
    → s'.vixod ≡ true
    → 1 ≤ s'.err
unfolding round
round-fails wmode t s s' h e =
    subst (λ (p : Option Session). CodedOption p) e
      (finish-Coded t (phase wmode t s) (phase-Coded wmode t s h))
