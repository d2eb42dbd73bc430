-- ===== src/Tests/Tasks.antt =====
-- Runs of the log server and the time client.
use esp_fmb.Prelude.{
  ℕ, ◌≡◌, refl, true, false, none, some, List, [], ◌∷◌, arith, if◌then◌else◌, ltb,
}
use esp_fmb.Prelude.Text.{codes}
use esp_fmb.NetLog.{Log, Op, put, turn, send_msg, put_msg, serve, rounds, net_log_task}
use esp_fmb.NetLog.Fifo.{Refines, net_log_task-Refines}
use esp_fmb.Sntp
use esp_fmb.Sntp.{Reading, retry_max, poll, sntp_task}
use esp_fmb.Sntp.Laws.{Stopped, sntp_task-ends}

abbrev a_log : Log
a_log = record { queue = codes "a" ∷ []; live = 1; client = none; sent = []; closed = [] }

-- A message is printed while a client reads the one before, and then the client goes.
abbrev log_ops : List Op
log_ops =
    put true (codes "bc")
    ∷ turn (record { taken = some 1; offline = false })
    ∷ turn (record { taken = some 2; offline = false })
    ∷ turn (record { taken = none; offline = true })
    ∷ []

log_runs : net_log_task (some 3) (none ∷ some 4 ∷ []) log_ops a_log ≡ record {
  queue = [];
  live = 0;
  client = none;
  sent = codes "bc" ∷ codes "a" ∷ [];
  closed = 3 ∷ 4 ∷ [];
}
unfolding net_log_task rounds serve send_msg put_msg
log_runs = refl

net_log_task-Refines_example :
    Refines
      (none ∷ some 4 ∷ [])
      log_ops
      a_log
      (net_log_task (some 3) (none ∷ some 4 ∷ []) log_ops a_log)
net_log_task-Refines_example =
    net_log_task-Refines (some 3) (none ∷ some 4 ∷ []) log_ops a_log (refl, omega arith)

-- The time is there at the third try.
abbrev a_clock : ℕ → Reading
a_clock n = record { tm_year = if ltb n 2 then 70 else 120; restart_flag = false }

abbrev at_start : Sntp.Globals
at_start = record { date_time_ok = 0; total_task = 2; sntp_start = 0 }

sntp_runs :
    sntp_task true true a_clock at_start
    ≡ some (record { date_time_ok = 1; total_task = 2; sntp_start = 0 })
unfolding sntp_task poll
sntp_runs = refl

sntp_task-ends_example :
    (n : ℕ) × Stopped a_clock 0 n
    × (sntp_task true true a_clock at_start
        ≡ some (record {
          date_time_ok = if ltb n retry_max then 1 else 0;
          total_task = 2;
          sntp_start = 0;
        }))
sntp_task-ends_example = sntp_task-ends a_clock at_start (omega arith)
