-- ===== src/Session/Timers.antt =====
-- What the timers of the relays and of the outputs do.
use esp_fmb.Prelude.{
  ℕ, zero, suc, ◌+◌, ◌<◌, ◌≤◌, ◌==◌, ◌≡◌, refl, sym, ap, ◌∙◌, subst, List, [], ◌∷◌, length, get_or,
  arith, if◌then◌else◌, inl, inr, Bool-cases,
}
use esp_fmb.Timer.{check_tmr}
use esp_fmb.Mirror.{Io1}
use esp_fmb.Device.{Device, Box}
use esp_fmb.Session.Boxes.{done, off, switch_off, box_timers, pin_timers}

switch_off-each :
    (varta : ℕ → ℕ) (k : ℕ) (ts : List ℕ) (bx : List Box) (j : ℕ)
    → length ts ≡ length bx
    → j < length bx
    → let (ts', bx') = switch_off varta k ts bx in
      let fired = done (varta (k + j)) (get_or ts j 0) in
      (get_or bx' j off ≡ (if fired then off else get_or bx j off))
      × (get_or ts' j 0 ≡ (if fired then 0 else get_or ts j 0))
unfolding switch_off
switch_off-each varta k [] [] j e h = absurd (omega arith)
switch_off-each varta k [] (b ∷ bx) j e h = absurd (omega (arith, e))
switch_off-each varta k (t ∷ ts) [] j e h = absurd (omega (arith, e))
switch_off-each varta k (t ∷ ts) (b ∷ bx) zero e h =
    let here : k + 0 ≡ k = omega arith in
    elim (Bool-cases (done (varta k) t)) [
      | inl f ↦ rw (here, f) (refl, refl)
      | inr f ↦ rw (here, f) (refl, refl)
    ]
switch_off-each varta k (t ∷ ts) (b ∷ bx) (suc j) e h =
    let there : k + suc j ≡ k + 1 + j = omega arith in
    let rest = switch_off-each varta (k + 1) ts bx j (omega (arith, e)) (omega arith) in
    elim (Bool-cases (done (varta k) t)) [ inl f ↦ rw (there, f) rest | inr f ↦ rw (there, f) rest ]

-- At the reading `now` of the counter, a timer `t` turns `b` into `o` if it is set and its time has come.
pub data Timed {A : Type 0} (now t : ℕ) (b o : A) : A → Type 0 where
  fires : 0 < t → t ≤ now → Timed now t b o o
  is_clear : t ≡ 0 → Timed now t b o b
  is_early : now < t → Timed now t b o b

done-Timed : {A : Type 0} (now t : ℕ) (b o : A) → Timed now t b o (if done now t then o else b)
unfolding check_tmr
done-Timed now t b o = elim (Bool-cases (done now t)) [
  | inl e ↦ rw e (fires (ground arith) (ground arith))
  | inr e ↦ elim (Bool-cases (t == 0)) [
    | inl z ↦ rw e (is_clear (ground arith))
    | inr n ↦ rw e (is_early (ground arith))
  ]
]

switch_off-Timed :
    (varta : ℕ → ℕ) (ts : List ℕ) (bx : List Box) (j : ℕ)
    → length ts ≡ length bx
    → j < length bx
    → let (ts', bx') = switch_off varta 0 ts bx in
      Timed (varta j) (get_or ts j 0) (get_or ts j 0) 0 (get_or ts' j 0)
      × Timed (varta j) (get_or ts j 0) (get_or bx j off) off (get_or bx' j off)
switch_off-Timed varta ts bx j e h =
    let t = get_or ts j 0 in
    let z : 0 + j ≡ j = omega arith in
    let (b, r) = switch_off-each varta 0 ts bx j e h in
    (
      subst (Timed (varta j) t t 0) (sym (r ∙ ap (λ k. if done (varta k) t then 0 else t) z))
          (done-Timed (varta j) t t 0),
      subst (Timed (varta j) t (get_or bx j off) off)
          (sym (b ∙ ap (λ k. if done (varta k) t then off else get_or bx j off) z))
          (done-Timed (varta j) t (get_or bx j off) off),
    )

-- With as many timers as relays: at the end of a round a relay is switched off and its timer cleared
-- if the timer is above 0 and not above the counter; every other relay and timer stays as it is.
pub box_timers-Timed :
    (varta : ℕ → ℕ) (v : Device) (j : ℕ)
    → length v.tmr_box ≡ length v.box
    → j < length v.box
    → let w = box_timers varta v in
      let now = varta (j + 9) in
      let t = get_or v.tmr_box j 0 in
      Timed now t t 0 (get_or w.tmr_box j 0)
      × Timed now t (get_or v.box j off) (record { stat = 0; time = 0 }) (get_or w.box j off)
unfolding box_timers
box_timers-Timed varta v j e h = switch_off-Timed (λ k. varta (k + 9)) v.tmr_box v.box j e h

-- The output `j` as the mirror shows it.
abbrev pub dout_of : ℕ → Io1 → ℕ
dout_of zero i = i.val_dout1
dout_of (suc zero) i = i.val_dout2
dout_of (suc (suc zero)) i = i.val_dout3
dout_of (suc (suc (suc j))) i = i.val_dout4

pin_timers-dout :
    (varta : ℕ → ℕ) (v : Device) (j : ℕ)
    → j < 4
    → Timed
        (varta (j + 17))
        (get_or v.tmr_pin j 0)
        (dout_of j v.mirror.io1)
        0
        (dout_of j (pin_timers varta v).mirror.io1)
unfolding pin_timers
pin_timers-dout varta v zero h =
    done-Timed (varta 17) (get_or v.tmr_pin 0 0) v.mirror.io1.val_dout1 0
pin_timers-dout varta v (suc zero) h =
    done-Timed (varta 18) (get_or v.tmr_pin 1 0) v.mirror.io1.val_dout2 0
pin_timers-dout varta v (suc (suc zero)) h =
    done-Timed (varta 19) (get_or v.tmr_pin 2 0) v.mirror.io1.val_dout3 0
pin_timers-dout varta v (suc (suc (suc zero))) h =
    done-Timed (varta 20) (get_or v.tmr_pin 3 0) v.mirror.io1.val_dout4 0
pin_timers-dout varta v (suc (suc (suc (suc j)))) h = absurd (omega arith)

-- With four outputs and as many timers: at the end of a round an output is switched off, in the mirror
-- too, and its timer cleared, if the timer is above 0 and not above the counter; every other output
-- and timer, and what the mirror shows of it, stays as it is.
pub pin_timers-Timed :
    (varta : ℕ → ℕ) (v : Device) (j : ℕ)
    → length v.tmr_pin ≡ 4
    → length v.pin ≡ 4
    → j < 4
    → let w = pin_timers varta v in
      let now = varta (j + 17) in
      let t = get_or v.tmr_pin j 0 in
      Timed now t t 0 (get_or w.tmr_pin j 0)
      × Timed now t (get_or v.pin j off) (record { stat = 0; time = 0 }) (get_or w.pin j off)
      × Timed now t (dout_of j v.mirror.io1) 0 (dout_of j w.mirror.io1)
unfolding pin_timers
pin_timers-Timed varta v j e f h =
    let (t, b) =
      switch_off-Timed (λ k. varta (k + 17)) v.tmr_pin v.pin j (omega (arith, e, f))
        (omega (arith, f)) in
    (t, b, pin_timers-dout varta v j h)
