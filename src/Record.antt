-- ===== src/Record.antt =====
-- `make_record` of main/fmb630.c, which moves the device along its scenario and builds the packet
-- for the server. `mirror_mutex` is waited for without limit. What the function prints or draws
-- is left out.
pub mod Cases
pub mod Packet
pub mod Motion
pub mod Invariant
pub mod Result
pub mod Stop
use Cases.{Drive, Terms, drive_entry}
use esp_fmb.Prelude.{
  ℕ, zero, suc, ◌+◌, ◌-◌, ◌*◌, ◌/◌, ◌%◌, Bool, true, false, ◌||◌, not, Option, none, some, List, [],
  ◌∷◌, ◌++◌, ltb, ◌==◌, if◌then◌else◌,
}
use esp_fmb.Prelude.Words.{u32, htons, htonl, htobe64, le16, le32}
use esp_fmb.Prelude.Int.{pos, le_pos}
use esp_fmb.Crc.{ksum}
use esp_fmb.Timer.{get_tmr, check_tmr}
use esp_fmb.Scenario.{Ones, get_ones}
use esp_fmb.Mirror.{Mir, info_of, mir_bytes}
use esp_fmb.Device.{Device}

abbrev pub max_pk : ℕ
max_pk = 3

-- `TMR_EVENT`, 30 seconds.
abbrev tmr_event : ℕ
tmr_event = 300

-- What the function reads of the world, in the order of its calls: whether `calloc` gave a
-- buffer, `time` in the movement, the timer counter at the test and at the setting of `tmr_evt`,
-- `rand`, `time` for the stamp, `time` after each copy and at the end, the timer counter at the end.
pub record Readings : Type 0 where
  pub allocated : Bool
  pub time_way : ℕ
  pub varta_evt : ℕ
  pub varta_evt_set : ℕ
  pub rand : ℕ
  pub time_stamp : ℕ
  pub time_copy : ℕ → ℕ
  pub time_sent : ℕ
  pub varta_send : ℕ

-- `rnd(mx)`, from what `rand` gave.
unfoldable pub rnd : ℕ → ℕ → ℕ
rnd r mx = let ret = r % mx in if ltb ret 3 then 3 else ret

-- The number of samples in the packet.
unfoldable pub clamp_pk : ℕ → ℕ
clamp_pk kolpack = if kolpack == 0 then 1 else (if ltb max_pk kolpack then max_pk else kolpack)

-- The end of the entry: the next one, or the first.
unfoldable pub advance : Ones → Device → Device
advance one v =
    if le_pos one.kols v.scena_kols
    then (let next = v.scena_index + 1 in
        record v {
          scena_kols = 0;
          scena_index = if ltb v.scena_total next then 1 else next;
          send_period = v.sp_move;
        })
    else v

abbrev pub drive_of : Device → Drive
drive_of v = record {
  mirs = v.mirror;
  scena_kols = v.scena_kols;
  send_period = v.send_period;
  move_flag = v.move_flag;
  stop_flag = v.stop_flag;
  cdut = v.cdut;
}

abbrev store_drive : Drive → Device → Device
store_drive d v = record v {
  mirror = d.mirs;
  scena_kols = d.scena_kols;
  send_period = d.send_period;
  move_flag = d.move_flag;
  stop_flag = d.stop_flag;
  cdut = d.cdut;
}

abbrev pub terms_of : Readings → Device → Terms
terms_of r v = record {
  sp_park = v.sp_park;
  sp_move = v.sp_move;
  elapsed = u32 (u32 r.time_way + 4294967296 - v.last_send);
}

-- The part under `if (wmode == 1)`, on the device with `mirs` in the place of `mirror`.
unfoldable pub scenario_step : ℕ → Readings → Device → Device
unfolding advance
scenario_step wmode r v =
    if wmode == 1
    then (elim (get_ones (pos v.scena_index) v.records) [
      | none ↦ v
      | some one ↦ advance one (store_drive (drive_entry (terms_of r v) one (drive_of v)) v)
    ])
    else record v { send_period = v.sp_park }

-- `ts64 = time(NULL); ts64 *= 1000; mirs.gsm.ts = htobe64(ts64)`
abbrev stamp : ℕ → Mir → Mir
stamp t m =
    let g = m.gsm in record m { gsm = record g { ts = htobe64 (t * 1000 % 18446744073709551616) } }

-- The satellites, the movement sensor, the time stamp and the priority.
unfoldable pub refresh : Readings → Device → Device
unfolding rnd
refresh r v =
    let fired = check_tmr r.varta_evt v.tmr_evt in
    let m = stamp r.time_stamp v.mirror in
    let g = m.gsm in
    let i = m.io1 in
    let moves = not (g.speed == 0) || not (m.io2.val_speed == 0) in
    record v {
      mirror = record m {
        gsm = record g {
          sattelites = if fired then rnd r.rand 18 else g.sattelites;
          prio = v.prio;
        };
        io1 = record i { val_moves = if moves then 1 else 0 };
      };
      tmr_evt = if fired then get_tmr r.varta_evt_set tmr_event else v.tmr_evt;
      prio = 0;
    }

-- The loop that copies the samples, with `n` rounds left; the state has a new stamp after each.
unfoldable pub copies : (ℕ → ℕ) → ℕ → ℕ → Mir → List ℕ × Mir
copies time_copy zero i m = ([], m)
copies time_copy (suc n) i m =
    let (rest, m') = copies time_copy n (i + 1) (stamp (time_copy i) m) in (mir_bytes m ++ rest, m')

-- `sizeof(s_mir)`.
abbrev pub sizeof_mir : ℕ
sizeof_mir = 92

-- The packet in the buffer, for `pk` samples that take the bytes `samples`; `lens` is the length
-- of the data with the two zero bytes behind it.
unfoldable pub packet : ℕ → List ℕ → List ℕ
packet pk samples =
    let lens = 2 + sizeof_mir * pk + 3 in
    let body = 8 ∷ pk ∷ samples ++ (pk ∷ le16 0) in
    le32 0 ++ (le32 (htonl (lens - 2)) ++ (body ++ le16 (htons (ksum body (lens - 2)))))

-- The device afterwards, the packet and its length; behind the packet the buffer holds zeros.
unfoldable pub make_record : ℕ → ℕ → Readings → Device → Device × List ℕ × ℕ
make_record kolpack wmode r v =
    if r.allocated
    then (let pk = clamp_pk kolpack in
        let v1 = refresh r (scenario_step wmode r v) in
        let (samples, mirs) = copies r.time_copy pk 0 v1.mirror in
        let lens = 2 + sizeof_mir * pk + 3 in
        (
          record v1 {
            mirror = mirs;
            gsm_info = info_of mirs.gsm;
            last_send = u32 r.time_sent;
            tmr_send = get_tmr r.varta_send v1.send_period;
          },
          packet pk samples,
          lens + 8 + 2,
        ))
    else (record v { tmr_send = get_tmr r.varta_send v.send_period }, [], 0)
