-- ===== src/MainLoop/Schedule.antt =====
-- The main loop among the tasks it starts and those that ask it for something. A created task begins
-- before the delay behind its creation is over.
use esp_fmb.Prelude.{ℕ, suc, ◌+◌, ◌-◌, ◌%◌, ◌≡◌, Bool, true, false, List, ◌∷◌}
use esp_fmb.MainLoop.{Volume, Main, Answers, main_step}

abbrev begun : ℕ → ℕ
begun total = (total + 1) % 256

pub data Step : Main → Main → Type 0 where
  loop :
      (s : Main) (a : Answers)
      → s.sntp_made ≡ 0
      → s.ftp_made ≡ 0
      → s.other_made ≡ 0
      → Step s (main_step a s)
  sntp_begins :
      (s : Main) (n : ℕ)
      → s.sntp_made ≡ suc n
      → Step s (record s {
        sntp_made = n;
        sntp_start = true;
        sntp_tasks = s.sntp_tasks + 1;
        total_task = begun s.total_task;
      })
  sntp_ends :
      (s : Main) (n : ℕ)
      → s.sntp_tasks ≡ suc n
      → Step s (record s { sntp_tasks = n; sntp_start = false; total_task = s.total_task - 1 })
  ftp_begins :
      (s : Main) (n : ℕ)
      → s.ftp_made ≡ suc n
      → Step s (record s {
        ftp_made = n;
        ftp_start = true;
        ftp_tasks = s.dev_path ∷ s.ftp_tasks;
        total_task = begun s.total_task;
      })
  ftp_ends :
      (s : Main) (v : Volume) (vs : List Volume)
      → s.ftp_tasks ≡ v ∷ vs
      → Step s (record s { ftp_tasks = vs; ftp_start = false; total_task = s.total_task - 1 })
  other_begins :
      (s : Main) (n : ℕ)
      → s.other_made ≡ suc n
      → Step s (record s {
        other_made = n;
        other_tasks = s.other_tasks + 1;
        total_task = begun s.total_task;
      })
  other_ends :
      (s : Main) (n : ℕ)
      → s.other_tasks ≡ suc n
      → Step s (record s { other_tasks = n; total_task = s.total_task - 1 })
  asks_sntp : (s : Main) → Step s (record s { sntp_go = true })
  asks_ftp : (s : Main) (sd : Bool) → Step s (record s { to_sd = sd; ftp_go_flag = true })
  sets_restart : (s : Main) (b : Bool) → Step s (record s { restart_flag = b })

pub data Reach (s : Main) : Main → Type 0 where
  here : Reach s s
  next : {t u : Main} → Reach s t → Step t u → Reach s u
