-- ===== src/Session/Grant.antt =====
-- Without a byte 1 from the server a session sends its identity once, and nothing else.
use esp_fmb.Prelude.{
  ℕ, ◌≡◌, ◌≢◌, refl, sym, ap, ◌∙◌, subst, Bool, true, false, ◌&&◌, Option, none, some, List, [],
  ◌∷◌, ◌==◌, ◌⊎◌, inl, inr, Bool-cases, arith,
}
use esp_fmb.Timer.{get_tmr, check_tmr}
use esp_fmb.Device.{Device}
use esp_fmb.Session.{
  Sock, closed, idle, byte, Turn, Session, avl_imei, await_grant, hello, phase, ack_timeout, finish,
  round,
}
use esp_fmb.Session.Outer.{
  Outer, first_time, begin_session, unless_over, is_over, go_on, run_rounds,
}

-- The server does not grant: no byte, or one that is not 1.
abbrev Withheld : Sock → Type 0
Withheld closed = Unit
Withheld idle = Unit
Withheld (byte b) = b ≢ 1

abbrev AllWithheld : List Turn → Type 0
AllWithheld [] = Unit
AllWithheld (t ∷ ts) = Withheld t.sock × AllWithheld ts

module _ (im : List ℕ) (old : List (List ℕ)) where
  -- In the first phase, when the identity was sent.
  abbrev Said : Session → Type 0
  Said s = (s.grant ≡ false) × (s.faza ≡ 0) × (s.first ≡ false) × (s.sent ≡ (0 ∷ 15 ∷ im) ∷ old)

  -- The first phase before that.
  abbrev Silent : Session → Type 0
  Silent s =
      (s.grant ≡ false) × (s.faza ≡ 0) × (s.first ≡ true) × (s.sent ≡ old) × (s.device.im ≡ im)

  abbrev Settled : Option Session → Type 0
  Settled none = Unit
  Settled (some s) = Said s

  await_grant-Settled :
      (k : Sock) (s : Session) → Withheld k → Said s → Settled (some (await_grant k s))
  unfolding await_grant
  await_grant-Settled closed s w h = h
  await_grant-Settled idle s w h = h
  await_grant-Settled (byte n) s w h = elim (Bool-cases (n == 1)) [
    | inl e ↦ absurd (w (ground arith))
    | inr e ↦ rw e h
  ]

  hello-first : (t : Turn) (s : Session) → Withheld t.sock → Silent s → Settled (some (hello t s))
  unfolding hello
  hello-first t s w (g0, z, f, e, i) =
      let said : avl_imei s.device ∷ s.sent ≡ (0 ∷ 15 ∷ im) ∷ old =
        ap (λ m. (0 ∷ 15 ∷ m) ∷ s.sent) i ∙ ap (◌∷◌ (0 ∷ 15 ∷ im)) e in
      let s1 : Session = record s {
        first = false;
        wait_ack = true;
        tmr_ack = get_tmr (t.varta 0) s.wait_ack_sec;
        sent = avl_imei s.device ∷ s.sent;
      } in
      elim (Bool-cases t.imei_sent) [
        | inl g ↦ simp (f, g) (await_grant-Settled t.sock s1 w (g0, z, refl, said))
        | inr g ↦ simp (f, g) (g0, z, refl, said)
      ]

  hello-again : (t : Turn) (s : Session) → Withheld t.sock → Said s → Settled (some (hello t s))
  unfolding hello
  hello-again t s w (g0, z, f, e) = elim (Bool-cases s.wait_ack) [
    | inl g ↦ simp (f, g) (await_grant-Settled t.sock s w (g0, z, f, e))
    | inr g ↦ simp (f, g) (g0, z, refl, e)
  ]

  phase-hello :
      (wmode : ℕ) (t : Turn) (s : Session) → s.faza ≡ 0 → phase wmode t s ≡ some (hello t s)
  unfolding phase
  phase-hello wmode t s z = let e : (s.faza == 0) ≡ true = ground arith in rw e refl

  -- What holds before a round.
  abbrev Polite : Session → Type 0
  Polite s = Silent s ⊎ Said s

  phase-Settled :
      (wmode : ℕ) (t : Turn) (s : Session) → Withheld t.sock → Polite s → Settled (phase wmode t s)
  phase-Settled wmode t s w (inl h) =
      subst Settled (sym (phase-hello wmode t s h.1)) (hello-first t s w h)
  phase-Settled wmode t s w (inr h) =
      subst Settled (sym (phase-hello wmode t s h.1)) (hello-again t s w h)

  ack_timeout-Settled :
      (t : Turn) (s : Session) → Settled (some s) → Settled (some (ack_timeout t s))
  unfolding ack_timeout
  ack_timeout-Settled t s h = elim (Bool-cases (s.wait_ack && check_tmr (t.varta 8) s.tmr_ack)) [
    | inl e ↦ rw e h
    | inr e ↦ rw e h
  ]

  finish-Settled : (t : Turn) (r : Option Session) → Settled r → Settled (finish t r)
  unfolding finish
  finish-Settled t none h = tt
  finish-Settled t (some s) h = ack_timeout-Settled t s h

  round-Settled :
      (wmode : ℕ) (t : Turn) (s : Session) → Withheld t.sock → Polite s → Settled (round wmode t s)
  unfolding round
  round-Settled wmode t s w h = finish-Settled t (phase wmode t s) (phase-Settled wmode t s w h)

  abbrev PoliteOption : Option Session → Type 0
  PoliteOption none = Unit
  PoliteOption (some s) = Polite s

  unless_over-Polite :
      (b : Bool) (s : Session) (r : Option Session)
      → Polite s
      → PoliteOption r
      → PoliteOption (unless_over b s r)
  unless_over-Polite true s r h k = h
  unless_over-Polite false s r h k = k

  go_on-Polite :
      (k : Session → Option Session) (r : Option Session)
      → Settled r
      → ((s : Session) → Polite s → PoliteOption (k s))
      → PoliteOption (go_on k r)
  go_on-Polite k none h f = tt
  go_on-Polite k (some s) h f = f s (inr h)

  run_rounds-Polite :
      (wmode : ℕ) (ts : List Turn) (s : Session)
      → AllWithheld ts
      → Polite s
      → PoliteOption (run_rounds wmode ts s)
  unfolding run_rounds
  run_rounds-Polite wmode [] s w h = h
  run_rounds-Polite wmode (t ∷ ts) s w h =
      unless_over-Polite (is_over s) s (go_on (run_rounds wmode ts) (round wmode t s)) h (
        go_on-Polite (run_rounds wmode ts) (round wmode t s) (round-Settled wmode t s w.0 h)
          (λ v k. run_rounds-Polite wmode ts v w.1 k))

first_time-im :
    (b : Bool) (mode : ℕ) (lat lon : Option ℕ) (v : Device)
    → (first_time b mode lat lon v).im ≡ v.im
first_time-im false mode lat lon v = refl
first_time-im true mode lat lon v = elim (Bool-cases (mode == 0)) [
  | inl e ↦ rw e refl
  | inr e ↦ rw e refl
]

Polite-sent :
    (im : List ℕ) (old : List (List ℕ)) (u : Session)
    → Polite im old u
    → (u.grant ≡ false) × ((u.sent ≡ old) ⊎ (u.sent ≡ (0 ∷ 15 ∷ im) ∷ old))
Polite-sent im old u (inl h) = (h.0, inl h.3)
Polite-sent im old u (inr h) = (h.0, inr h.3)

-- As long as the server sends no byte 1, a session that starts anew is not granted and has sent
-- nothing, or the identity of the device, behind its length, once: whatever else the server sends,
-- whatever the sockets, the clock and the timers show, and however many rounds it takes.
pub begin_session-ungranted :
    (varta : ℕ → ℕ) (o : Outer) (ts : List Turn) (u : Session)
    → AllWithheld ts
    → run_rounds o.work_mode ts (begin_session varta o).session ≡ some u
    → (u.grant ≡ false)
      × ((u.sent ≡ o.session.sent) ⊎ (u.sent ≡ avl_imei o.session.device ∷ o.session.sent))
unfolding begin_session
begin_session-ungranted varta o ts u w e =
    let im = o.session.device.im in
    let old = o.session.sent in
    let v : Device = record o.session.device { stop_flag = 0 } in
    let start : Polite im old (begin_session varta o).session =
      inl (refl, refl, refl, refl, first_time-im o.one o.work_mode o.first_lat o.first_lon v) in
    Polite-sent im old u (
      subst (PoliteOption im old) e
        (run_rounds-Polite im old o.work_mode ts (begin_session varta o).session w start))
