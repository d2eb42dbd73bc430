-- ===== src/Session/Outer.antt =====
-- `fmb630_task` of main/fmb630.c around a connection: the settings, the buffers, the loop
-- `while (!restart_flag)` that connects again and again, and the end. Printing, drawing, waiting and
-- the lamp are left out. None is a session that wrote behind a buffer.
pub mod Laws
use esp_fmb.Prelude.{
  ℕ, zero, suc, ◌+◌, ◌*◌, ◌-◌, ◌%◌, ◌^◌, Bool, true, false, ◌||◌, Option, none, some, List, [], ◌∷◌,
  ltb, ◌==◌, if◌then◌else◌,
}
use esp_fmb.Prelude.Words.{u32}
use esp_fmb.Timer.{get_tmr, one_s}
use esp_fmb.Scenario.{HdrRec, del_all_ones}
use esp_fmb.Mirror.{init_mirror}
use esp_fmb.Device.{Device}
use esp_fmb.Config.{Conf}
use esp_fmb.Session.Receiver.{Recv}
use esp_fmb.Session.{Turn, Session, tmr_two_period, round}

-- The variables of the task that outlive a connection. `sockets` are the open sockets, the last
-- first, `dialled` the addresses of `connect`.
pub record Outer : Type 0 where
  pub session : Session
  pub line : List ℕ
  pub tcp_port : ℕ
  pub work_mode : ℕ
  pub wait_before_new_connect : ℕ
  pub first_lat : Option ℕ
  pub first_lon : Option ℕ
  pub one : Bool
  pub sockets : List ℕ
  pub dialled : List (List ℕ × ℕ)

-- A setting of the configuration in seconds; 0 leaves what is there.
abbrev pub setting : ℕ → ℕ → ℕ
setting zero old = old
setting (suc n) old = u32 (suc n * one_s)

abbrev pub place : ℕ → Option ℕ
place zero = none
place (suc n) = some (suc n)

unfoldable pub set_device : Conf → Device → Device
set_device cfg v =
    let park = setting cfg.snd_park v.sp_park in
    let move = setting cfg.snd_move v.sp_move in
    record v {
      im = cfg.imei;
      sp_park = park;
      sp_move = move;
      scena_total = if cfg.mode == 0 then v.scena_total else v.records.counter;
      send_period = if cfg.mode == 0 then park else move;
    }

-- The settings, and `err` and `one` at the start of the task.
unfoldable pub set_up : Conf → Outer → Outer
set_up cfg o =
    let s = o.session in
    record o {
      session = record s {
        err = 255;
        wait_ack_sec = setting cfg.wait_ack s.wait_ack_sec;
        device = set_device cfg s.device;
      };
      line = cfg.srv;
      tcp_port = cfg.port;
      work_mode = cfg.mode;
      wait_before_new_connect = setting cfg.wait_before_new_connect o.wait_before_new_connect;
      first_lat = place cfg.latitude;
      first_lon = place cfg.longitude;
      one = true;
    }

-- Only before the first session.
abbrev pub first_time : Bool → ℕ → Option ℕ → Option ℕ → Device → Device
first_time false mode lat lon v = v
first_time true mode lat lon v =
    let w : Device = record v { mirror = init_mirror lat lon v.mirror } in
    if mode == 0 then w else record w { scena_kols = 0; scena_index = 1 }

abbrev pub tmr_event : ℕ
tmr_event = 30 * one_s

-- The variables of a new session, at these readings of the timer counter.
unfoldable pub begin_session : (ℕ → ℕ) → Outer → Outer
begin_session varta o =
    let s = o.session in
    let v =
      first_time o.one o.work_mode o.first_lat o.first_lon (record s.device { stop_flag = 0 }) in
    record o {
      session = record s {
        faza = 0;
        first = true;
        grant = false;
        wait_ack = false;
        vixod = false;
        err = 0;
        kol_pack = 1;
        recv = record s.recv { got = []; left = [] };
        tmr_ack = get_tmr (varta 0) s.wait_ack_sec;
        tmr_two = get_tmr (varta 1) tmr_two_period;
        device = record v { tmr_evt = get_tmr (varta 2) tmr_event };
      };
      one = false;
    }

-- `while (!Vixod && !restart_flag)`, until what the world gives is used up.
abbrev pub unless_over : Bool → Session → Option Session → Option Session
unless_over true s more = some s
unless_over false s more = more

abbrev pub is_over : Session → Bool
is_over s = s.vixod || s.device.restart_flag

abbrev pub go_on : (Session → Option Session) → Option Session → Option Session
go_on k none = none
go_on k (some s) = k s

unfoldable pub run_rounds : ℕ → List Turn → Session → Option Session
run_rounds wmode [] s = some s
run_rounds wmode (t ∷ ts) s =
    unless_over (is_over s) s (go_on (run_rounds wmode ts) (round wmode t s))

-- What a round of the outer loop reads: the new socket, whether `connect` succeeds, the counter, and
-- what the rounds of the session read.
pub record Visit : Type 0 where
  pub socket : Option ℕ
  pub connected : Bool
  pub varta : ℕ → ℕ
  pub turns : List Turn

abbrev pub remove : ℕ → List ℕ → List ℕ
remove h [] = []
remove h (x ∷ xs) = let rest = remove h xs in if x == h then xs else x ∷ rest

-- `out_of_job`: only a number above 0 is closed.
abbrev pub out_of_job : ℕ → Outer → Outer
out_of_job zero o = o
out_of_job (suc n) o = record o { sockets = remove (suc n) o.sockets }

abbrev pub with_session : Outer → Option Session → Option Outer
with_session o none = none
with_session o (some s) = some (record o { session = s })

abbrev pub closed_after : ℕ → Option Outer → Option Outer
closed_after h none = none
closed_after h (some o) = some (out_of_job h o)

abbrev pub if_connected : ℕ → Bool → Visit → Outer → Option Outer
if_connected h false v o = some o
if_connected h true v o =
    let b = begin_session v.varta o in with_session b (run_rounds b.work_mode v.turns b.session)

abbrev pub if_socket : Option ℕ → Visit → Outer → Option Outer
if_socket none v o = some o
if_socket (some h) v o =
    let p : Outer = record o {
      sockets = h ∷ o.sockets;
      dialled = (o.line, o.tcp_port) ∷ o.dialled;
    } in
    closed_after h (if_connected h v.connected v p)

unfoldable pub visit : Visit → Outer → Option Outer
visit v o = if_socket v.socket v o

abbrev pub unless_restart : Bool → Outer → Option Outer → Option Outer
unless_restart true o more = some o
unless_restart false o more = more

abbrev pub next_visit : (Outer → Option Outer) → Option Outer → Option Outer
next_visit k none = none
next_visit k (some o) = k o

-- `while (!restart_flag)`.
unfoldable pub visits : List Visit → Outer → Option Outer
visits [] o = some o
visits (v ∷ vs) o =
    unless_restart o.session.device.restart_flag o (next_visit (visits vs) (visit v o))

-- The end of the loop.
abbrev pub cleared : Option Outer → Option Outer
cleared none = none
cleared (some o) =
    let s = o.session in
    let d = s.device in
    some
      (record o { session = record s { device = record d { records = del_all_ones d.records } } })

-- The four buffers of the task, as `calloc` gives them: all, or those before the first that fails.
-- What is there is freed at the end, so that only whether all are there is told.
unfoldable pub fmb630_task : Bool → Conf → List Visit → Outer → Option Outer
fmb630_task false cfg vs o = some o
fmb630_task true cfg vs o = cleared (visits vs (set_up cfg o))
