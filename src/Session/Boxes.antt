-- ===== src/Session/Boxes.antt =====
-- The timers of the relays and of the outputs, at the end of a round of `fmb630_task` in
-- main/fmb630.c.
use esp_fmb.Prelude.{ℕ, ◌+◌, Bool, ◌&&◌, List, [], ◌∷◌, ltb, if◌then◌else◌, get_or}
use esp_fmb.Timer.{check_tmr}
use esp_fmb.Device.{Device, Box}

-- A timer that is set and done.
abbrev pub done : ℕ → ℕ → Bool
done varta tmr = ltb 0 tmr && check_tmr varta tmr

abbrev pub off : Box
off = record { stat = 0; time = 0 }

-- The loops over timers and relays, or outputs; reading `k` of the counter is for number `k`.
unfoldable pub switch_off : (ℕ → ℕ) → ℕ → List ℕ → List Box → List ℕ × List Box
switch_off varta k [] bx = ([], bx)
switch_off varta k (t ∷ ts) [] = (t ∷ ts, [])
switch_off varta k (t ∷ ts) (b ∷ bx) =
    let (ts', bx') = switch_off varta (k + 1) ts bx in
    if done (varta k) t then (0 ∷ ts', off ∷ bx') else (t ∷ ts', b ∷ bx')

unfoldable pub box_timers : (ℕ → ℕ) → Device → Device
box_timers varta v =
    let (ts, bx) = switch_off (λ k. varta (k + 9)) 0 v.tmr_box v.box in
    record v { tmr_box = ts; box = bx }

abbrev pub clear_dout : Bool → ℕ → ℕ
clear_dout fired dout = if fired then 0 else dout

-- The outputs are reported in the mirror too.
unfoldable pub pin_timers : (ℕ → ℕ) → Device → Device
pin_timers varta v =
    let (ts, pn) = switch_off (λ k. varta (k + 17)) 0 v.tmr_pin v.pin in
    let fired : ℕ → Bool = λ k. done (varta (k + 17)) (get_or v.tmr_pin k 0) in
    let m = v.mirror in
    let i = m.io1 in
    record v {
      tmr_pin = ts;
      pin = pn;
      mirror = record m {
        io1 = record i {
          val_dout1 = clear_dout (fired 0) i.val_dout1;
          val_dout2 = clear_dout (fired 1) i.val_dout2;
          val_dout3 = clear_dout (fired 2) i.val_dout3;
          val_dout4 = clear_dout (fired 3) i.val_dout4;
        };
      };
    }
