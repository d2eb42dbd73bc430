-- ===== src/Sntp/Laws.antt =====
-- The tries of `sntp_task` end.
use esp_fmb.Prelude.{
  ℕ, zero, suc, ◌+◌, ◌-◌, ◌%◌, ◌^◌, ◌≤◌, ◌<◌, ◌≡◌, refl, ap, ◌∙◌, subst, ◌⊎◌, inl, inr, Bool, true,
  false, ◌&&◌, some, ltb, ◌==◌, if◌then◌else◌, Bool-cases, arith,
}
use esp_fmb.Sntp.{
  Reading, retry_max, again, unless_restart, poll, Globals, mark, after_poll, task_done, sntp_task,
}

-- The time is not yet set, and nobody wants a restart.
abbrev pub IsWaiting : Reading → Type 0
IsWaiting r = (r.tm_year < 117) × (r.restart_flag ≡ false)

-- Why the loop ended at its `n`th try.
abbrev pub Stopped : (ℕ → Reading) → ℕ → ℕ → Type 0
Stopped clock from n =
    (from < n)
    × (n ≤ retry_max)
    × ((i : ℕ) → from ≤ i → i + 1 < n → IsWaiting (clock i))
    × ((n ≡ retry_max) ⊎ (((clock (n - 1)).restart_flag ≡ true) ⊎ (117 ≤ (clock (n - 1)).tm_year)))

poll-once :
    (fuel retry : ℕ) (clock : ℕ → Reading) (f b : Bool)
    → retry < 255
    → (clock retry).restart_flag ≡ f
    → (ltb (clock retry).tm_year 117 && ltb (retry + 1) retry_max) ≡ b
    → poll (suc fuel) retry clock
      ≡ unless_restart f (retry + 1) (again b (retry + 1) (poll fuel (retry + 1) clock))
unfolding poll
poll-once fuel retry clock f b h e g =
    let w : (retry + 1) % 2 ^ 8 ≡ retry + 1 = omega arith in
    let year = ltb (clock retry).tm_year 117 in
    ap
      (λ n.
        unless_restart (clock retry).restart_flag n
          (again (year && ltb n retry_max) n (poll fuel n clock)))
      w
    ∙ ap
        (λ t.
          unless_restart t (retry + 1)
            (again (year && ltb (retry + 1) retry_max) (retry + 1) (poll fuel (retry + 1) clock)))
        e
    ∙ ap (λ t. unless_restart f (retry + 1) (again t (retry + 1) (poll fuel (retry + 1) clock))) g

-- The loop ends at this try.
Stopped-now :
    (clock : ℕ → Reading) (retry : ℕ)
    → retry < retry_max
    → (retry + 1 ≡ retry_max)
      ⊎ (((clock retry).restart_flag ≡ true) ⊎ (117 ≤ (clock retry).tm_year))
    → Stopped clock retry (retry + 1)
Stopped-now clock retry h why =
    let e : retry ≡ retry + 1 - 1 = omega arith in
    (
      omega arith,
      omega arith,
      λ i j k. absurd (omega arith),
      subst
          (λ n.
            (retry + 1 ≡ retry_max) ⊎ (((clock n).restart_flag ≡ true) ⊎ (117 ≤ (clock n).tm_year)))
          e why,
    )

-- The loop goes on.
Stopped-later :
    (clock : ℕ → Reading) (retry n : ℕ)
    → IsWaiting (clock retry)
    → Stopped clock (retry + 1) n
    → Stopped clock retry n
Stopped-later clock retry n w (a, b, c, d) = (
  omega arith,
  b,
  λ i j k. elim (Bool-cases (i == retry)) [
    | inl e ↦ subst (λ m. IsWaiting (clock m)) (ground arith) w
    | inr e ↦ c i (ground arith) k
  ],
  d,
)

and-false : (b : Bool) → (b && false) ≡ false
and-false true = refl
and-false false = refl

poll-Stopped :
    (fuel retry : ℕ) (clock : ℕ → Reading)
    → retry + suc fuel ≡ retry_max
    → (n : ℕ) × (poll (suc fuel) retry clock ≡ some n) × Stopped clock retry n
poll-Stopped zero retry clock e =
    let year = ltb (clock retry).tm_year 117 in
    let last : ltb (retry + 1) retry_max ≡ false = ground arith in
    let here = Stopped-now clock retry (omega arith) (inl (omega arith)) in
    elim (Bool-cases (clock retry).restart_flag) [
      | inl f ↦ (
        retry + 1,
        poll-once 0 retry clock true (year && ltb (retry + 1) retry_max) (omega arith) f refl,
        here,
      )
      | inr f ↦ (
        retry + 1,
        poll-once 0 retry clock false false (omega arith) f
            (ap (λ b. year && b) last ∙ and-false year),
        here,
      )
    ]
poll-Stopped (suc fuel) retry clock e =
    let year = ltb (clock retry).tm_year 117 in
    let more : ltb (retry + 1) retry_max ≡ true = ground arith in
    elim (Bool-cases (clock retry).restart_flag) [
      | inl f ↦ (
        retry + 1,
        poll-once (suc fuel) retry clock true (year && ltb (retry + 1) retry_max) (omega arith) f
            refl,
        Stopped-now clock retry (omega arith) (inr (inl f)),
      )
      | inr f ↦ elim (Bool-cases (ltb (clock retry).tm_year 117)) [
        | inr g ↦ (
          retry + 1,
          poll-once (suc fuel) retry clock false false (omega arith) f
              (ap (λ b. b && ltb (retry + 1) retry_max) g),
          Stopped-now clock retry (omega arith) (inr (inr (ground arith))),
        )
        | inl g ↦
            let (n, r, s) = poll-Stopped fuel (retry + 1) clock (omega arith) in
            let w : IsWaiting (clock retry) = (ground arith, f) in
            (
              n,
              poll-once (suc fuel) retry clock false true (omega arith) f
                    (ap (λ b. b && ltb (retry + 1) retry_max) g ∙ more)
                  ∙ r,
              Stopped-later clock retry n w s,
            )
      ]
    ]

done-mark :
    (b : Bool) (g : Globals) (t : ℕ)
    → t - 1 ≡ g.total_task
    → task_done (some (mark b (record g { total_task = t; sntp_start = 1 })))
      ≡ some (record {
        date_time_ok = if b then 1 else g.date_time_ok;
        total_task = g.total_task;
        sntp_start = 0;
      })
done-mark true g t e =
    ap (λ n. some (record { date_time_ok = 1; total_task = n; sntp_start = 0 })) e
done-mark false g t e =
    ap (λ n. some (record { date_time_ok = g.date_time_ok; total_task = n; sntp_start = 0 })) e

-- The task with a server's name, once the WiFi is connected, which it waits for without limit, ends
-- after the first try, of at most 30, at which the time is set or a
-- restart is wanted, or after the 30th. `sntp_start` is 0 then, `total_task` is what it was, if fewer
-- than 255 tasks run, and `setDateTimeOK` is set to 1 if that was before the 30th try, and else
-- left.
pub sntp_task-ends :
    (clock : ℕ → Reading) (g : Globals)
    → g.total_task < 255
    → (n : ℕ) × Stopped clock 0 n
      × (sntp_task true true clock g
          ≡ some (record {
            date_time_ok = if ltb n retry_max then 1 else g.date_time_ok;
            total_task = g.total_task;
            sntp_start = 0;
          }))
unfolding sntp_task
sntp_task-ends clock g h =
    let (n, r, s) = poll-Stopped 29 0 clock (omega arith) in
    let t : (g.total_task + 1) % 2 ^ 8 - 1 ≡ g.total_task = omega arith in
    let start : Globals = record g { total_task = (g.total_task + 1) % 2 ^ 8; sntp_start = 1 } in
    (
      n,
      s,
      ap (λ o. task_done (after_poll o start)) r
          ∙ done-mark (ltb n retry_max) g ((g.total_task + 1) % 2 ^ 8) t,
    )
