-- ===== src/MainLoop/Safety.antt =====
-- The tasks of the main loop are few and counted, and their volumes mounted.
use esp_fmb.Prelude.{
  ℕ, ◌+◌, ◌%◌, ◌==◌, ◌&&◌, ◌≤◌, ◌<◌, ◌≡◌, refl, subst, ◌∙◌, Bool-cases, Bool, true, false, ◌⊎◌, inl,
  inr, List, [], ◌∷◌, length, arith,
}
use esp_fmb.MainLoop.{
  Volume, card, disk, Place, test, sntp_part, unmount_part, ftp_part, reset_part, waiting, halted,
  Main, Answers, one_if, step_at, main_step, before_loop,
}
use esp_fmb.MainLoop.Schedule.{
  Step, loop, sntp_begins, sntp_ends, ftp_begins, ftp_ends, other_begins, other_ends, asks_sntp,
  asks_ftp, sets_restart, Reach, here, next,
}

-- By the flags of the card and the disk.
abbrev is_mounted : Bool → Bool → Volume → Bool
is_mounted mnt_ok disk_ok card = mnt_ok
is_mounted mnt_ok disk_ok disk = disk_ok

abbrev AllMounted : Bool → Bool → List Volume → Type 0
AllMounted mnt_ok disk_ok [] = Unit
AllMounted mnt_ok disk_ok (v ∷ vs) =
    (is_mounted mnt_ok disk_ok v ≡ true) × AllMounted mnt_ok disk_ok vs

abbrev is_halted : Place → Bool
is_halted halted = true
is_halted test = false
is_halted sntp_part = false
is_halted unmount_part = false
is_halted ftp_part = false
is_halted reset_part = false
is_halted waiting = false

-- At most one task of the loop's two kinds is there, the flags show whether it runs, there are at most
-- three others, and all that run are counted.
abbrev Counted : Main → Type 0
Counted s =
    (s.sntp_made + s.sntp_tasks ≤ 1)
    × (s.sntp_start ≡ false → s.sntp_tasks ≡ 0)
    × (s.ftp_made + length s.ftp_tasks ≤ 1)
    × (s.ftp_start ≡ false → s.ftp_tasks ≡ [])
    × (s.other_made + s.other_tasks ≤ 3)
    × (s.total_task ≡ s.sntp_tasks + length s.ftp_tasks + s.other_tasks)

-- Besides, the volume of a client is mounted until the restart, and at a restart before the last round
-- of the wait no task runs.
pub record IsSafe (s : Main) : Type 0 where
  pub counted : Counted s
  pub made_mounted :
      is_halted s.place ≡ false
      → (s.ftp_made ≡ 0) ⊎ (is_mounted s.mnt_ok s.disk_ok s.dev_path ≡ true)
  pub all_mounted : is_halted s.place ≡ false → AllMounted s.mnt_ok s.disk_ok s.ftp_tasks
  pub restarted :
      is_halted s.place ≡ true
      → 0 < s.cnt
      → (s.total_task ≡ 0) × (s.sntp_made ≡ 0) × (s.ftp_made ≡ 0) × (s.other_made ≡ 0)

step_at-ftp_tasks : (p : Place) (a : Answers) (s : Main) → (step_at p a s).ftp_tasks ≡ s.ftp_tasks
step_at-ftp_tasks p a s = ground arith

-- Only the restart unmounts a volume while a client runs.
step_at-mnt_ok :
    (p : Place) (a : Answers) (s : Main)
    → s.ftp_start ≡ true
    → is_halted (step_at p a s).place ≡ false
    → (step_at p a s).mnt_ok ≡ s.mnt_ok
step_at-mnt_ok p a s h k = ground arith

step_at-disk_ok :
    (p : Place) (a : Answers) (s : Main)
    → s.ftp_start ≡ true
    → is_halted (step_at p a s).place ≡ false
    → (step_at p a s).disk_ok ≡ s.disk_ok
step_at-disk_ok p a s h k = ground arith

-- The restart is the end.
step_at-halted :
    (a : Answers) (s : Main)
    → is_halted (step_at s.place a s).place ≡ false
    → is_halted s.place ≡ false
step_at-halted a s k = ground arith

step_at-mounted :
    (a : Answers) (s : Main)
    → IsSafe s
    → is_halted (step_at s.place a s).place ≡ false
    → AllMounted
        (step_at s.place a s).mnt_ok
        (step_at s.place a s).disk_ok
        (step_at s.place a s).ftp_tasks
step_at-mounted a s h k =
    let e = step_at-ftp_tasks s.place a s in
    elim (Bool-cases s.ftp_start) [
      | inl b ↦
          rw (step_at-mnt_ok s.place a s b k, step_at-disk_ok s.place a s b k, e)
            (h.all_mounted (step_at-halted a s k))
      | inr b ↦ rw (e ∙ h.counted.3 b) tt
    ]

main_step-IsSafe :
    (s : Main) (a : Answers)
    → s.sntp_made ≡ 0
    → s.ftp_made ≡ 0
    → s.other_made ≡ 0
    → IsSafe s
    → IsSafe (main_step a s)
unfolding main_step
main_step-IsSafe s a m n o h = record {
  counted = ground arith;
  made_mounted = ground arith;
  all_mounted = step_at-mounted a s h;
  restarted = ground arith;
}

-- What is asked for is not done before the loop does it.
asked-IsSafe :
    (s : Main) (sntp ftp sd restart : Bool)
    → IsSafe s
    → IsSafe (record s { sntp_go = sntp; ftp_go_flag = ftp; to_sd = sd; restart_flag = restart })
asked-IsSafe s sntp ftp sd restart h = record {
  counted = h.counted;
  made_mounted = h.made_mounted;
  all_mounted = h.all_mounted;
  restarted = h.restarted;
}

Step-IsSafe : {s t : Main} → Step s t → IsSafe s → IsSafe t
Step-IsSafe (loop s a m n o) h = main_step-IsSafe s a m n o h
Step-IsSafe (sntp_begins s n e) h = record {
  counted = ground arith;
  made_mounted = ground arith;
  all_mounted = h.all_mounted;
  restarted = ground arith;
}
Step-IsSafe (sntp_ends s n e) h = record {
  counted = ground arith;
  made_mounted = ground arith;
  all_mounted = h.all_mounted;
  restarted = ground arith;
}
Step-IsSafe (ftp_begins s n e) h = record {
  counted = ground arith;
  made_mounted = ground arith;
  all_mounted = λ k. (ground arith, h.all_mounted k);
  restarted = ground arith;
}
Step-IsSafe (ftp_ends s v vs e) h = record {
  counted = ground arith;
  made_mounted = ground arith;
  all_mounted = λ k. (subst (AllMounted s.mnt_ok s.disk_ok) e (h.all_mounted k)).1;
  restarted = ground arith;
}
Step-IsSafe (other_begins s n e) h = record {
  counted = ground arith;
  made_mounted = ground arith;
  all_mounted = h.all_mounted;
  restarted = ground arith;
}
Step-IsSafe (other_ends s n e) h = record {
  counted = ground arith;
  made_mounted = ground arith;
  all_mounted = h.all_mounted;
  restarted = ground arith;
}
Step-IsSafe (asks_sntp s) h = asked-IsSafe s true s.ftp_go_flag s.to_sd s.restart_flag h
Step-IsSafe (asks_ftp s sd) h = asked-IsSafe s s.sntp_go true sd s.restart_flag h
Step-IsSafe (sets_restart s b) h = asked-IsSafe s s.sntp_go s.ftp_go_flag s.to_sd b h

Reach-IsSafe : {s t : Main} → Reach s t → IsSafe s → IsSafe t
Reach-IsSafe here h = h
Reach-IsSafe (next r st) h = Step-IsSafe st (Reach-IsSafe r h)

one_if-le : (b : Bool) → one_if b + 0 ≤ 1
one_if-le true = omega arith
one_if-le false = omega arith

before_loop-IsSafe :
    (w : ℕ) (made : Bool) (others : ℕ) (disk_ok sd : Bool)
    → others ≤ 3
    → IsSafe (before_loop w made others disk_ok sd)
unfolding before_loop
before_loop-IsSafe w made others disk_ok sd h = record {
  counted =
      (one_if-le (made && (w % 2 == 1)), (λ e. refl), omega arith, (λ e. refl), omega arith, refl);
  made_mounted = λ k. inl refl;
  all_mounted = λ k. tt;
  restarted = ground arith;
}

-- With at most three other tasks, however the loop, the tasks and the requests come in turn: there is
-- never more than one task for the clock and never more than one FTP client, created or running; a
-- flag that is down shows that none runs; `total_task` is the number of all running tasks; until the
-- restart the volume that a client writes to, or is to write to, is mounted; and a restart before the
-- last round of the wait finds no task running and none to begin.
pub main_loop-IsSafe :
    (w : ℕ) (made : Bool) (others : ℕ) (disk_ok sd : Bool) (s : Main)
    → others ≤ 3
    → Reach (before_loop w made others disk_ok sd) s
    → IsSafe s
main_loop-IsSafe w made others disk_ok sd s h r =
    Reach-IsSafe r (before_loop-IsSafe w made others disk_ok sd h)
