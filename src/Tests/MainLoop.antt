-- ===== src/Tests/MainLoop.antt =====
-- The main loop starts a client for the card.
use esp_fmb.Prelude.{◌≡◌, arith, refl, true, false, [], ◌∷◌}
use esp_fmb.MainLoop.{card, Main, Answers, main_step, before_loop}
use esp_fmb.MainLoop.Schedule.{Reach, here, next, loop, ftp_begins, asks_ftp}
use esp_fmb.MainLoop.Safety.{IsSafe, main_loop-IsSafe}

abbrev all_well : Answers
all_well = record { created = true; mounted = true; pressed = false }

abbrev asked : Main
asked = record (before_loop 2 true 0 true false) { to_sd = true; ftp_go_flag = true }

abbrev served : Main
served = main_step all_well (main_step all_well (main_step all_well (main_step all_well asked)))

abbrev client_runs : Main
client_runs = record served {
  ftp_made = 0;
  ftp_start = true;
  ftp_tasks = served.dev_path ∷ served.ftp_tasks;
  total_task = 1;
}

asked_served : Reach (before_loop 2 true 0 true false) client_runs
unfolding main_step before_loop
asked_served =
    next
      (next
        (next
          (next
            (next (next here (asks_ftp (before_loop 2 true 0 true false) true))
              (loop asked all_well refl refl refl))
            (loop (main_step all_well asked) all_well refl refl refl))
          (loop (main_step all_well (main_step all_well asked)) all_well refl refl refl))
        (loop (main_step all_well (main_step all_well (main_step all_well asked))) all_well refl
          refl refl))
      (ftp_begins served 0 refl)

card_in_use : client_runs.ftp_tasks ≡ card ∷ []
unfolding main_step before_loop
card_in_use = refl

main_loop-IsSafe_example : IsSafe client_runs
main_loop-IsSafe_example =
    main_loop-IsSafe 2 true 0 true false client_runs (omega arith) asked_served
