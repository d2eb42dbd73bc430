-- ===== src/Device.antt =====
-- The variables of main/fmb630.c that `make_record`, `parse_cmd` and the main loop share.
use esp_fmb.Prelude.{ℕ, Bool, List}
use esp_fmb.Mirror.{Mir, GsmInfo}
use esp_fmb.Scenario.{HdrRec}

-- `s_box`: the state of a relay or of an output, and the seconds for which it was switched on.
pub record Box : Type 0 where
  pub stat : ℕ
  pub time : ℕ

abbrev pub max_relay : ℕ
max_relay = 8

abbrev pub max_pin : ℕ
max_pin = 4

pub record Device : Type 0 where
  pub mirror : Mir
  pub gsm_info : GsmInfo
  -- The identity number of the device, 15 bytes.
  pub im : List ℕ
  pub records : HdrRec
  pub scena_kols : ℕ
  pub scena_index : ℕ
  pub scena_total : ℕ
  pub move_flag : ℕ
  pub stop_flag : ℕ
  pub sp_park : ℕ
  pub sp_move : ℕ
  pub send_period : ℕ
  pub prio : ℕ
  -- The static variable of `make_record`.
  pub cdut : ℕ
  pub tmr_send : ℕ
  pub tmr_evt : ℕ
  pub last_send : ℕ
  -- The relays and their timers, and the outputs and theirs.
  pub box : List Box
  pub tmr_box : List ℕ
  pub pin : List Box
  pub tmr_pin : List ℕ
  pub restart_flag : Bool
