-- ===== src/Command/Switch.antt =====
-- What the commands for one relay do.
use esp_fmb.Prelude.{
  ℕ, suc, ◌+◌, ◌*◌, ◌%◌, ◌<◌, ◌≡◌, ◌≢◌, refl, ap, ◌∙◌, true, false, Option, none, some, List, [],
  ◌∷◌, length, get_elem?, set, take, ap₂, arith, ltb, ◌==◌, if◌then◌else◌, get_elem?-set_self,
  get_elem?-set_ne, inl, inr, Bool-cases,
}
use esp_fmb.Prelude.Int.{pos}
use esp_fmb.Prelude.Text.{strchr, atoi, print_u}
use esp_fmb.Prelude.Text.Decimal.{atoi-print_u, atoi-digit}
use esp_fmb.Timer.{get_tmr}
use esp_fmb.Device.{Device, Box}
use esp_fmb.Command.Words.{set_on}
use esp_fmb.Command.Relays.{set_one, arg_of, switched, relay_index}
use esp_fmb.Command.{World, Outcome, overflow, answered, set_relay, do_set_one}

-- The parameter " N T" of a command for relay `k`, counted from zero, for `t` seconds.
abbrev pub relay_text : ℕ → ℕ → List ℕ
relay_text k t = b' ' ∷ (k + 49) ∷ b' ' ∷ print_u t

strchr-relay : (k : ℕ) (ts : List ℕ) → strchr ((k + 49) ∷ b' ' ∷ ts) b' ' ≡ some ((k + 49) ∷ [], ts)
unfolding strchr
strchr-relay k ts = let e : (k + 49 == 32) ≡ false = ground arith in rw e refl

relay_number : (k : ℕ) → k < 8 → relay_index (atoi ((k + 49) ∷ [])) ≡ some k
relay_number k h =
    ap (λ (c : ℕ). relay_index (atoi (c ∷ []))) (omega arith)
    ∙ ap relay_index (atoi-digit (suc k) (omega arith))
    ∙ in_range
  where
    in_range : relay_index (pos (suc k)) ≡ some k
    in_range = ground arith

abbrev one_for : ℕ → Box
one_for t = record { stat = 1; time = t }

set_one-text :
    (k t : ℕ)
    → k < 8
    → t < 2147483648
    → set_one true ((k + 49) ∷ b' ' ∷ print_u t) ≡ some (k, record { stat = 1; time = t })
unfolding set_one
set_one-text k t h small =
    ap
      (λ (p : Option (List ℕ × List ℕ)).
        let (arg, seconds) = arg_of ((k + 49) ∷ b' ' ∷ print_u t) p in
        switched true seconds (relay_index (atoi (take (length arg % 2) arg))))
      (strchr-relay k (print_u t))
    ∙ ap₂ (switched true) (atoi-print_u t small) (relay_number k h)
    ∙ ap (λ (seconds : ℕ). some (k, one_for seconds)) (omega arith)

-- Relay `j`, and its timer, after a command.
abbrev pub relay_after : Outcome → ℕ → Option Box
relay_after overflow j = none
relay_after (answered a) j = get_elem? a.device.box j

abbrev pub timer_after : Outcome → ℕ → Option ℕ
timer_after overflow j = none
timer_after (answered a) j = get_elem? a.device.tmr_box j

set_at {ℓ} :
    {A : Type ℓ} (xs : List A) (k j : ℕ) (x : A)
    → k < length xs
    → get_elem? (set xs k x) j ≡ (if j == k then some x else get_elem? xs j)
set_at xs k j x h = elim (Bool-cases (j == k)) [
  | inl e ↦
      let same : j ≡ k = ground arith in
      rw e (ap (get_elem? (set xs k x)) same ∙ get_elem?-set_self xs k x h)
  | inr e ↦ let ne : k ≢ j = ground arith in rw e (get_elem?-set_ne xs x ne)
]

-- SET_ON with the number of one of the first eight relays, which is there with its timer, and a time
-- below 2^31, as they are printed, switches this relay on for that time and sets its timer, or
-- clears it for the time 0; the other relays and timers stay.
pub set_on-relay :
    (w : World) (line : List ℕ) (v : Device) (k t j : ℕ)
    → k < 8
    → t < 2147483648
    → k < length v.box
    → k < length v.tmr_box
    → let after = do_set_one set_on true w line (relay_text k t) v in
      (relay_after after j
        ≡ (if j == k then some (record { stat = 1; time = t }) else get_elem? v.box j))
      × (timer_after after j ≡ (
          if j == k
          then some (if ltb 0 t then get_tmr (w.varta k) (t * 10 % 4294967296) else 0)
          else get_elem? v.tmr_box j))
unfolding do_set_one set_relay
set_on-relay w line v k t j h small in_box in_tmr =
    rw (relay_after, timer_after, set_one-text k t h small)
      (set_at v.box k j _ in_box, set_at v.tmr_box k j _ in_tmr)
