-- ===== src/Sntp.antt =====
-- `sntp_task` of main/sntp_cli.c: how often it asks for the time, and when it takes the time for set. The
-- SNTP library and the printing are left out. Before the tries the task waits without limit for the
-- connection of the WiFi: whether that comes is an argument. Of the clock, a function of the number of the try gives
-- the year after 1900, and whether `restart_flag` is set.
pub mod Laws
use esp_fmb.Prelude.{
  ℕ, zero, suc, ◌+◌, ◌-◌, ◌%◌, ◌^◌, Bool, true, false, ◌&&◌, Option, none, some, ltb,
}

pub record Reading : Type 0 where
  pub tm_year : ℕ
  pub restart_flag : Bool

abbrev pub retry_max : ℕ
retry_max = 30

-- One more try, if the time is not set and tries are left.
abbrev pub again : Bool → ℕ → Option ℕ → Option ℕ
again true retry more = more
again false retry more = some retry

abbrev pub unless_restart : Bool → ℕ → Option ℕ → Option ℕ
unless_restart true retry more = some retry
unless_restart false retry more = more

-- The value of `retry` behind the loop; none is a loop that has not ended.
unfoldable pub poll : ℕ → ℕ → (ℕ → Reading) → Option ℕ
poll zero retry clock = none
poll (suc fuel) retry clock =
    let r = clock retry in
    let next = (retry + 1) % 2 ^ 8 in
    unless_restart r.restart_flag next
      (again (ltb r.tm_year (2017 - 1900) && ltb next retry_max) next (poll fuel next clock))

-- `setDateTimeOK`, `total_task` and `sntp_start`.
pub record Globals : Type 0 where
  pub date_time_ok : ℕ
  pub total_task : ℕ
  pub sntp_start : ℕ

abbrev pub mark : Bool → Globals → Globals
mark true g = record g { date_time_ok = 1 }
mark false g = g

abbrev pub after_poll : Option ℕ → Globals → Option Globals
after_poll none g = none
after_poll (some retry) g = some (mark (ltb retry retry_max) g)

-- `xEventGroupWaitBits` with `portMAX_DELAY`: none is a wait that does not end.
abbrev pub wait_connected : Bool → Option Globals → Option Globals
wait_connected true rest = rest
wait_connected false rest = none

abbrev pub if_server : Bool → Bool → (ℕ → Reading) → Globals → Option Globals
if_server true connected clock g = wait_connected connected (after_poll (poll retry_max 0 clock) g)
if_server false connected clock g = some g

abbrev pub task_done : Option Globals → Option Globals
task_done none = none
task_done (some g) = some (record g { total_task = g.total_task - 1; sntp_start = 0 })

-- `server` says whether the argument is a name, `connected` whether the WiFi comes to be connected;
-- none is a task that does not end.
unfoldable pub sntp_task : Bool → Bool → (ℕ → Reading) → Globals → Option Globals
sntp_task server connected clock g = task_done (
    if_server server connected clock
      (record g { total_task = (g.total_task + 1) % 2 ^ 8; sntp_start = 1 }))
