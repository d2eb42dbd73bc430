-- ===== src/Timer.antt =====
-- The software timers of main/main.c: a counter of 100 ms periods, and deadlines on it.
use esp_fmb.Prelude.{ℕ, ◌+◌, ◌%◌, ◌≤◌, ◌<◌, ◌≡◌, Bool, true, arith, leb}
use esp_fmb.Prelude.Words.{u32}

-- `periodic_timer_callback`.
unfoldable pub periodic_timer_callback : ℕ → ℕ
periodic_timer_callback varta = u32 (varta + 1)

unfoldable pub get_tmr : ℕ → ℕ → ℕ
get_tmr varta tm = u32 (varta + tm)

unfoldable pub check_tmr : ℕ → ℕ → Bool
check_tmr varta tm = leb tm varta

-- `_1s`, in periods.
abbrev pub one_s : ℕ
one_s = 10

pub ticks : ℕ → ℕ → ℕ
ticks ℕ.zero varta = varta
ticks (ℕ.suc n) varta = ticks n (periodic_timer_callback varta)

ticks-add : (n varta : ℕ) → varta + n < 4294967296 → ticks n varta ≡ varta + n
unfolding ticks periodic_timer_callback
ticks-add ℕ.zero varta h = omega arith
ticks-add (ℕ.suc n) varta h = omega (arith, ticks-add n ((varta + 1) % 4294967296) (omega arith))

-- A timer that is set for `tm` periods has fired after `n` of them exactly when `tm <= n`, as
-- long as the counter does not wrap round meanwhile.
pub check_tmr-get_tmr :
    (varta tm n : ℕ)
    → varta + tm < 4294967296
    → varta + n < 4294967296
    → check_tmr (ticks n varta) (get_tmr varta tm) ≡ leb tm n
unfolding check_tmr get_tmr
check_tmr-get_tmr varta tm n h k = ground (arith, ticks-add n varta k)

-- Near the end of the counter the deadline wraps to a small number, and the timer has fired as
-- soon as it is set.
pub check_tmr_wrapped :
    (varta tm : ℕ)
    → varta < 4294967296
    → tm < 4294967296
    → 4294967296 ≤ varta + tm
    → check_tmr varta (get_tmr varta tm) ≡ true
unfolding check_tmr get_tmr
check_tmr_wrapped varta tm h k over = ground arith
