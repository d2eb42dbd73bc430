-- ===== src/Session/Outer/Laws.antt =====
-- What the task around the sessions keeps.
use esp_fmb.Prelude.{
  ℕ, zero, suc, ◌≤◌, ◌≡◌, refl, sym, ap, ◌∙◌, subst, Bool, true, false, Option, none, some, List,
  [], ◌∷◌, ◌==◌, arith, Option-cases, Bool-cases, ◌⊎◌, inl, inr,
}
use esp_fmb.Config.{Conf}
use esp_fmb.Scenario.{del_all_ones}
use esp_fmb.Session.{Turn, Session, round}
use esp_fmb.Session.Order.{Coded, round-fails}
use esp_fmb.Session.Outer.{
  Outer, set_up, begin_session, unless_over, is_over, go_on, run_rounds, Visit, remove,
  with_session, closed_after, if_connected, if_socket, visit, unless_restart, next_visit, visits,
  cleared, fmb630_task,
}

unless_over-Coded :
    (b : Bool) (s u : Session) (r : Option Session)
    → Coded s
    → (r ≡ some u → Coded u)
    → unless_over b s r ≡ some u
    → Coded u
unless_over-Coded true s u r h k e = let f : s ≡ u = cc e in subst Coded f h
unless_over-Coded false s u r h k e = k e

run_rounds-Coded :
    (wmode : ℕ) (ts : List Turn) (s u : Session)
    → Coded s
    → run_rounds wmode ts s ≡ some u
    → Coded u
unfolding run_rounds
run_rounds-Coded wmode [] s u h e = let f : s ≡ u = cc e in subst Coded f h
run_rounds-Coded wmode (t ∷ ts) s u h e =
    unless_over-Coded (is_over s) s u (go_on (run_rounds wmode ts) (round wmode t s)) h
      (λ f. elim (Option-cases (round wmode t s)) [
        | inl g ↦ absurd (cc (sym (ap (go_on (run_rounds wmode ts)) g) ∙ f))
        | inr (v, g) ↦
            run_rounds-Coded wmode ts v u (round-fails wmode t s v h g)
              (sym (ap (go_on (run_rounds wmode ts)) g) ∙ f)
      ])
      e

-- The sockets, if there is a result.
abbrev Sockets : List ℕ → Option Outer → Type 0
Sockets l none = Unit
Sockets l (some o) = o.sockets ≡ l

with_session-Sockets : (o : Outer) (r : Option Session) → Sockets o.sockets (with_session o r)
with_session-Sockets o none = tt
with_session-Sockets o (some s) = refl

if_connected-Sockets :
    (h : ℕ) (b : Bool) (v : Visit) (o : Outer) → Sockets o.sockets (if_connected h b v o)
unfolding begin_session
if_connected-Sockets h false v o = refl
if_connected-Sockets h true v o =
    let b = begin_session v.varta o in
    with_session-Sockets b (run_rounds b.work_mode v.turns b.session)

closed_after-Sockets :
    (h : ℕ) (l : List ℕ) (r : Option Outer)
    → 1 ≤ h
    → Sockets (h ∷ l) r
    → Sockets l (closed_after h r)
closed_after-Sockets h l none p e = tt
closed_after-Sockets zero l (some o) p e = absurd (omega arith)
closed_after-Sockets (suc h) l (some o) p e =
    let f : (suc h == suc h) ≡ true = ground arith in ap (remove (suc h)) e ∙ rw f refl

-- The number of the socket, if there is one, is above 0.
abbrev IsNumbered : Option ℕ → Type 0
IsNumbered none = Unit
IsNumbered (some h) = 1 ≤ h

abbrev Numbered : List Visit → Type 0
Numbered [] = Unit
Numbered (v ∷ vs) = IsNumbered v.socket × Numbered vs

if_socket-Sockets :
    (s : Option ℕ) (v : Visit) (o : Outer) → IsNumbered s → Sockets o.sockets (if_socket s v o)
if_socket-Sockets none v o n = refl
if_socket-Sockets (some h) v o n =
    let p : Outer = record o {
      sockets = h ∷ o.sockets;
      dialled = (o.line, o.tcp_port) ∷ o.dialled;
    } in
    closed_after-Sockets h o.sockets (if_connected h v.connected v p) n
      (if_connected-Sockets h v.connected v p)

unless_restart-Sockets :
    (b : Bool) (l : List ℕ) (o : Outer) (r : Option Outer)
    → o.sockets ≡ l
    → Sockets l r
    → Sockets l (unless_restart b o r)
unless_restart-Sockets true l o r e f = e
unless_restart-Sockets false l o r e f = f

next_visit-Sockets :
    (l : List ℕ) (k : Outer → Option Outer) (r : Option Outer)
    → Sockets l r
    → ((o : Outer) → o.sockets ≡ l → Sockets l (k o))
    → Sockets l (next_visit k r)
next_visit-Sockets l k none e f = tt
next_visit-Sockets l k (some o) e f = f o e

visits-Sockets :
    (vs : List Visit) (l : List ℕ) (o : Outer)
    → Numbered vs
    → o.sockets ≡ l
    → Sockets l (visits vs o)
unfolding visits visit
visits-Sockets [] l o n e = e
visits-Sockets (v ∷ vs) l o n e =
    unless_restart-Sockets o.session.device.restart_flag l o (next_visit (visits vs) (visit v o)) e
      (next_visit-Sockets l (visits vs) (visit v o)
        (subst (λ z. Sockets z (visit v o)) e (if_socket-Sockets v.socket v o n.0))
        (λ p f. visits-Sockets vs l p n.1 f))

cleared-Sockets :
    (l : List ℕ) (r : Option Outer) (p : Outer)
    → Sockets l r
    → cleared r ≡ some p
    → (p.sockets ≡ l) × (p.session.device.records.first ≡ [])
unfolding del_all_ones
cleared-Sockets l none p e f = cc f
cleared-Sockets l (some o) p e f =
    let d = o.session.device in
    let q : Outer = record o {
      session = record o.session { device = record d { records = del_all_ones d.records } };
    } in
    let g : q ≡ p = cc f in
    (
      ap (λ (z : Outer). z.sockets) (sym g) ∙ e,
      ap (λ (z : Outer). z.session.device.records.first) (sym g),
    )

-- Why a session is over: by itself, with an error code, or because a restart is wanted.
abbrev pub Ended : Session → Type 0
Ended u = ((u.vixod ≡ true) × (1 ≤ u.err)) ⊎ ((u.vixod ≡ false) × (u.device.restart_flag ≡ true))

is_over-Ended : (u : Session) → Coded u → is_over u ≡ true → Ended u
is_over-Ended u h v = elim (Bool-cases u.vixod) [
  | inl e ↦ inl (e, h e)
  | inr e ↦ inr (e, ground arith)
]

-- A session that starts anew and goes through its rounds, whatever the sockets, the clock and the
-- timers show, and is over then, has set `Vixod` and has an error code, or has not set it and is over
-- because `restart_flag` is set.
pub begin_session-fails :
    (varta : ℕ → ℕ) (o : Outer) (ts : List Turn) (u : Session)
    → run_rounds o.work_mode ts (begin_session varta o).session ≡ some u
    → is_over u ≡ true
    → Ended u
unfolding begin_session
begin_session-fails varta o ts u e v =
    is_over-Ended u
      (run_rounds-Coded o.work_mode ts (begin_session varta o).session u (λ f. cc f) e) v

-- When the task that got its buffers ends, it has closed each socket that it opened, if their numbers
-- are above 0, and no entry of the scenario is left.
pub fmb630_task-closes :
    (cfg : Conf) (vs : List Visit) (o p : Outer)
    → Numbered vs
    → fmb630_task true cfg vs o ≡ some p
    → (p.sockets ≡ o.sockets) × (p.session.device.records.first ≡ [])
unfolding fmb630_task set_up
fmb630_task-closes cfg vs o p n e =
    cleared-Sockets o.sockets (visits vs (set_up cfg o)) p
      (visits-Sockets vs o.sockets (set_up cfg o) n refl) e
