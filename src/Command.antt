-- ===== src/Command.antt =====
-- `parse_cmd` of main/fmb630.c: the commands of the server and the answers to them.
-- `mirror_mutex` is waited for without limit; what the function prints is left out.
pub mod Relays
pub mod Words
pub mod Reply
pub mod Switch
use Words.{
  Cmd, getgps, delrec, getver, getio, set_all, get_stat, setdigout1, setdigout0, do_report, set_on,
  set_off, cpureset, cmds, find_cmd, acks,
}
use Relays.{
  off, skip_blank, set_all_loop, timers_of, timer_of, relay_index, set_one, stat_bits, setdigout,
  bad_command, overrun, set_to,
}
use Prim.Native.String.{String}
use esp_fmb.Prelude.{
  ℕ, zero, suc, ◌+◌, ◌-◌, ◌%◌, Bool, true, false, ◌&&◌, ◌||◌, not, Option, none, some, List, [],
  ◌∷◌, ◌++◌, ltb, ◌==◌, if◌then◌else◌, length, get_or, set, take, drop, replicate,
}
use esp_fmb.Prelude.Words.{u8, u32, htons, htonl, le16, le32}
use esp_fmb.Prelude.Int.{ℤ}
use esp_fmb.Prelude.Text.{codes, strstr, strchr, atoi, print_u, print_d, print_02x}
use esp_fmb.Crc.{ksum}
use esp_fmb.Mirror.{Mir, Io1, info_of}
use esp_fmb.Device.{Device, Box, max_relay, max_pin}

-- What the function reads of the world: the timer counter when the timer of relay or output `k`
-- is set, `time` for the answer, and the text of the answer to `getgps`, which is made of floats
-- and the local time.
pub record World : Type 0 where
  pub varta : ℕ → ℕ
  pub time : ℕ
  pub gps_text : Mir → List ℕ

-- An answer: the string in `ack_body`, what the buffer held before it was written, the codec
-- number, and the device; `overflow` is a write behind a buffer, which C leaves undefined.
pub record Answer : Type 0 where
  pub text : List ℕ
  pub stale : List ℕ
  pub cid : ℕ
  pub device : Device

pub data Outcome : Type 0 where
  overflow : Outcome
  answered : Answer → Outcome

abbrev reply : List ℕ → List ℕ → ℕ → Device → Outcome
reply text stale cid v = answered (record { text = text; stale = stale; cid = cid; device = v })

abbrev edit_io1 : (Io1 → Io1) → Device → Device
edit_io1 f v = let m = v.mirror in record v { mirror = record m { io1 = f m.io1 } }

-- The ignition follows the relays 7 and 8 when both are on or both are off.
unfoldable pub ignition : List Box → Device → Device
ignition bx v =
    let a = not ((get_or bx 6 off).stat == 0) in
    let b = not ((get_or bx 7 off).stat == 0) in
    if a && b
    then edit_io1 (λ i. record i { val_din1 = 1; val_ignition = 1 }) v
    else (if not a && not b
        then edit_io1 (λ i. record i { val_din1 = 0; val_ignition = 0 }) v
        else v)

abbrev failed : List ℕ → List ℕ
failed line = line ++ codes " : ERROR\r\n"

abbrev succeeded : List ℕ → List ℕ
succeeded line = line ++ codes " : OK\r\n"

unfoldable pub do_set_all : World → List ℕ → List ℕ → Device → Outcome
do_set_all w line rest v = elim (set_all_loop max_relay 0 (skip_blank rest) v.box) [
  | none ↦ reply (failed line) [] 13 v
  | some bx ↦
      let v' = ignition bx v in
      reply (succeeded line) [] 13 (record v' { box = bx; tmr_box = timers_of w.varta 0 bx })
]

unfoldable pub do_get_stat : List ℕ → List ℕ → Device → Outcome
do_get_stat line rest v = elim (strchr rest b' ') [
  | none ↦
      reply (line ++ codes " : " ++ print_02x (stat_bits 0 v.box 0) ++ codes "\r\n") (acks get_stat)
        13 v
  | some (_, behind) ↦ elim (relay_index (atoi behind)) [
    | none ↦ reply (failed line) (acks get_stat) 13 v
    | some k ↦
        reply (line ++ codes " : " ++ print_u (get_or v.box k off).stat ++ codes "\r\n")
          (acks get_stat) 13 v
  ]
]

-- The states, and the times, of the outputs in the answer to `setdigout`.
pub stats_text : List Box → List ℕ
stats_text [] = []
stats_text (b ∷ pn) = print_u b.stat ++ stats_text pn

pub times_text : List Box → List ℕ
times_text [] = []
times_text (b ∷ pn) = b' ' ∷ print_d b.time ++ times_text pn

abbrev douts : List Box → Io1 → Io1
douts pn i = record i {
  val_dout1 = (get_or pn 0 off).stat;
  val_dout2 = (get_or pn 1 off).stat;
  val_dout3 = (get_or pn 2 off).stat;
  val_dout4 = (get_or pn 3 off).stat;
}

unfoldable pub do_setdigout : Cmd → World → List ℕ → List ℕ → Device → Outcome
do_setdigout c w line rest v = elim (setdigout (skip_blank rest) v.pin) [
  | bad_command ↦ reply (line ++ codes " : Error cmd") (acks c) 12 v
  | overrun ↦ overflow
  | set_to pn ↦
      let v' = edit_io1 (douts pn) v in
      reply (codes "DOUTS are set to: " ++ stats_text pn ++ codes " TMOs are:" ++ times_text pn)
        (acks c) 12 (record v' { pin = pn; tmr_pin = timers_of w.varta 0 pn })
]

unfoldable pub set_relay : Cmd → World → List ℕ → Device → Option (ℕ × Box) → Outcome
set_relay c w line v none = reply (failed line) (acks c) 13 v
set_relay c w line v (some (k, b)) =
    let bx = set v.box k b in
    let v' = if (k == 6) || (k == 7) then ignition bx v else v in
    reply (succeeded line) (acks c) 13
      (record v' { box = bx; tmr_box = set v.tmr_box k (timer_of (w.varta k) b) })

unfoldable pub do_set_one : Cmd → Bool → World → List ℕ → List ℕ → Device → Outcome
do_set_one c on w line rest v = set_relay c w line v (set_one on (skip_blank rest))

-- The answer to `getio`; the number behind DI4 is that of DI3.
unfoldable pub getio_text : Mir → List ℕ
getio_text m =
    codes "DI1:"
    ++ print_u m.io1.val_din1
    ++ codes " DI2:"
    ++ print_u m.io1.val_din2
    ++ codes " DI3:"
    ++ print_u m.io1.val_din3
    ++ codes " DI4:"
    ++ print_u m.io1.val_din3
    ++ codes " AIN1:"
    ++ print_u (htons m.io2.val_ain1)
    ++ codes " AIN2:"
    ++ print_u (htons m.io2.val_ain2)
    ++ codes " AIN3:"
    ++ print_u (htons m.io2.val_ain3)
    ++ codes " DO1:"
    ++ print_u m.io1.val_dout1
    ++ codes " DO2:"
    ++ print_u m.io1.val_dout2
    ++ codes " DO3:"
    ++ print_u m.io1.val_dout3
    ++ codes " DO4:"
    ++ print_u m.io1.val_dout4

-- `memcpy(ack_body, im, size_imei)`, if the string holds "IMEI:".
unfoldable pub getver_text : List ℕ → List ℕ → List ℕ
getver_text im ack = elim (strstr ack (codes "IMEI:")) [
  | none ↦ ack
  | some _ ↦ take 15 im ++ drop 15 ack
]

-- The `switch` on the command.
unfoldable pub run_cmd : World → Cmd → List ℕ → List ℕ → Device → Outcome
run_cmd w getgps line rest v = reply (w.gps_text v.mirror) (acks getgps) 12 v
run_cmd w delrec line rest v = reply (acks delrec) [] 12 v
run_cmd w getver line rest v = reply (getver_text v.im (acks getver)) (acks getver) 12 v
run_cmd w getio line rest v = reply (getio_text v.mirror) (acks getio) 12 v
run_cmd w set_all line rest v = do_set_all w line rest v
run_cmd w get_stat line rest v = do_get_stat line rest v
run_cmd w setdigout1 line rest v = do_setdigout setdigout1 w line rest v
run_cmd w setdigout0 line rest v = do_setdigout setdigout0 w line rest v
run_cmd w do_report line rest v = reply (acks do_report) [] 12 (record v { prio = 1 })
run_cmd w set_on line rest v = do_set_one set_on true w line rest v
run_cmd w set_off line rest v = do_set_one set_off false w line rest v
run_cmd w cpureset line rest v = reply (acks cpureset) [] 12 (record v { restart_flag = true })

unfoldable pub dispatch : World → List ℕ → Device → Outcome
dispatch w line v = elim (find_cmd cmds line) [
  | none ↦ reply (codes "Error cmd") [] 12 v
  | some (c, rest) ↦ run_cmd w c line rest v
]

-- The bytes of the answer for the command type `ct`. With codec 13 the time stands before the
-- body, the announced length counts its four bytes, and as many bytes of the buffer follow the
-- string: its terminator and what stood behind.
unfoldable pub answer_bytes : ℕ → ℕ → Answer → List ℕ
answer_bytes time ct a =
    let timed = a.cid == 13 in
    let i = if timed then length a.text + 4 else length a.text in
    let body =
      if timed
      then le32 (htonl (u32 time))
        ++ (a.text ++ take 4 (0 ∷ drop (length a.text + 1) a.stale ++ replicate 3 0))
      else a.text in
    let len = if timed then 15 - 8 + i + 1 + 4 else 15 - 8 + i + 1 in
    let summed = a.cid ∷ 1 ∷ u8 (ct + 1) ∷ le32 (htonl i) ++ (body ++ 1 ∷ 0 ∷ 0 ∷ []) in
    le32 0 ++ (le32 (htonl len) ++ (summed ++ le16 (htons (ksum summed len))))

-- The answer, its length, the command, and the device with `mirror` and `gsm_info` stored.
pub record Parsed : Type 0 where
  pub out : List ℕ
  pub ret : ℕ
  pub cmd : Option Cmd
  pub device : Device

abbrev pub cmd_of : Option (Cmd × List ℕ) → Option Cmd
cmd_of none = none
cmd_of (some (c, rest)) = some c

-- The answer is written and the state stored; `none` is an overflow.
unfoldable pub respond : World → ℕ → Option Cmd → Outcome → Option Parsed
respond w ct cmd overflow = none
respond w ct cmd (answered a) =
    let i = if a.cid == 13 then length a.text + 4 else length a.text in
    let d = a.device in
    some (record {
      out = answer_bytes w.time ct a;
      ret = if a.cid == 13 then 15 + i + 3 + 2 + 4 else 15 + i + 3 + 2;
      cmd = cmd;
      device = record d { gsm_info = info_of d.mirror.gsm };
    })

unfoldable pub parse_cmd : World → ℕ → List ℕ → Device → Option Parsed
parse_cmd w ct line v = respond w ct (cmd_of (find_cmd cmds line)) (dispatch w line v)
