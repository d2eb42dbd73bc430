-- ===== src/MainLoop.antt =====
-- The main loop of `app_main` in main/main.c without the display, and the wait behind it: the loop
-- starts the tasks that set the clock and fetch the configuration file, and mounts the volume that the
-- file goes to.
pub mod Safety
pub mod Schedule
use esp_fmb.Prelude.{
  ℕ, zero, suc, ◌+◌, ◌%◌, Bool, true, false, ◌&&◌, ◌||◌, not, List, [], ◌∷◌, ◌==◌, if◌then◌else◌,
}

pub data Volume : Type 0 where
  card disk : Volume

-- The parts of a pass, the test of the loop, the wait behind the loop, and the restart.
pub data Place : Type 0 where
  test sntp_part unmount_part ftp_part reset_part waiting halted : Place

-- The variables. `dev_mnt` and `dev_path` are of the argument of `ftp_cli_task`. For the tasks: those
-- that were created and have not begun, those that run, and the volumes that clients write to. The
-- others are of the network log, the tracker and the TLS server. `cnt` is of the wait alone.
pub record Main : Type 0 where
  pub place : Place
  pub restart_flag : Bool
  pub wmode : ℕ
  pub sntp_go : Bool
  pub sntp_start : Bool
  pub ftp_go_flag : Bool
  pub ftp_start : Bool
  pub to_sd : Bool
  pub mnt_ok : Bool
  pub disk_ok : Bool
  pub dev_mnt : Bool
  pub dev_path : Volume
  pub total_task : ℕ
  pub cnt : ℕ
  pub sntp_made : ℕ
  pub sntp_tasks : ℕ
  pub ftp_made : ℕ
  pub ftp_tasks : List Volume
  pub other_made : ℕ
  pub other_tasks : ℕ

-- What the calls of a pass give: a task is created, a volume is mounted, the button is pressed.
pub record Answers : Type 0 where
  pub created : Bool
  pub mounted : Bool
  pub pressed : Bool

abbrev pub one_if : Bool → ℕ
one_if true = 1
one_if false = 0

abbrev pub start_sntp : Bool → Bool → Main → Main
start_sntp true made s = record s { sntp_go = false; sntp_made = s.sntp_made + one_if made }
start_sntp false made s = s

-- In the mode of a station, which is 1.
abbrev pub sntp_pass : Answers → Main → Main
sntp_pass a s = start_sntp ((s.wmode == 1) && (s.sntp_go && not s.sntp_start)) a.created s

-- `mdone` stays 0.
abbrev pub unmount_unless : Bool → Main → Main
unmount_unless true s = s
unmount_unless false s = record s { mnt_ok = false; disk_ok = false }

abbrev pub mount_for : Bool → Bool → Main → Main
mount_for true mounted s =
    let ok = s.mnt_ok || mounted in record s { mnt_ok = ok; dev_mnt = ok; dev_path = card }
mount_for false mounted s =
    let ok = s.disk_ok || mounted in record s { disk_ok = ok; dev_mnt = ok; dev_path = disk }

abbrev pub create_if : Bool → Bool → Main → Main
create_if true made s = record s { ftp_made = s.ftp_made + one_if made }
create_if false made s = s

abbrev pub create_client : Bool → Main → Main
create_client made s = create_if s.dev_mnt made s

abbrev pub start_ftp : Bool → Answers → Main → Main
start_ftp true a s =
    create_client a.created (mount_for s.to_sd a.mounted (record s { ftp_go_flag = false }))
start_ftp false a s = s

abbrev pub ftp_pass : Answers → Main → Main
ftp_pass a s = start_ftp (s.ftp_go_flag && not s.ftp_start) a s

abbrev pub reset_if : Bool → Main → Main
reset_if true s = record s { restart_flag = true; place = waiting }
reset_if false s = record s { place = test }

abbrev pub pass_unless : Bool → Main → Main
pass_unless true s = record s { place = waiting }
pass_unless false s = record s { place = sntp_part }

-- What is mounted is unmounted before the restart.
abbrev pub restart : Main → Main
restart s = record s { place = halted; mnt_ok = false; disk_ok = false }

-- A round of the wait for the other tasks, of which there are 30 at most.
abbrev pub wait_round : Bool → ℕ → Main → Main
wait_round true n s = restart s
wait_round false zero s = record s { cnt = 255 }
wait_round false (suc zero) s = restart (record s { cnt = 0 })
wait_round false (suc (suc n)) s = record s { cnt = suc n }

abbrev pub step_at : Place → Answers → Main → Main
step_at test a s = pass_unless s.restart_flag s
step_at sntp_part a s = record (sntp_pass a s) { place = unmount_part }
step_at unmount_part a s = record (unmount_unless s.ftp_start s) { place = ftp_part }
step_at ftp_part a s = record (ftp_pass a s) { place = reset_part }
step_at reset_part a s = reset_if a.pressed s
step_at waiting a s = wait_round (s.total_task == 0) s.cnt s
step_at halted a s = s

-- One part of the loop.
unfoldable pub main_step : Answers → Main → Main
main_step a s = step_at s.place a s

abbrev pub mount_flag : Bool → Bool → Bool → Bool
mount_flag true mnt_ok disk_ok = mnt_ok
mount_flag false mnt_ok disk_ok = disk_ok

abbrev pub volume_for : Bool → Volume
volume_for true = card
volume_for false = disk

-- Before the loop: the card is not mounted any more, a task for the clock and `others` tasks may have
-- been created, and the argument of the client is filled in.
unfoldable pub before_loop : ℕ → Bool → ℕ → Bool → Bool → Main
before_loop wmode made others disk_ok to_sd = record {
  place = test;
  restart_flag = false;
  wmode = wmode;
  sntp_go = false;
  sntp_start = false;
  ftp_go_flag = false;
  ftp_start = false;
  to_sd = to_sd;
  mnt_ok = false;
  disk_ok = disk_ok;
  dev_mnt = mount_flag to_sd false disk_ok;
  dev_path = volume_for to_sd;
  sntp_made = one_if (made && (wmode % 2 == 1));
  sntp_tasks = 0;
  other_made = others;
  other_tasks = 0;
  total_task = 0;
  cnt = 30;
  ftp_made = 0;
  ftp_tasks = [];
}
