-- ===== src/Control/Serve.antt =====
-- The loops of `tls_task` in main/tls_srv.c, without the time limit of 60 seconds, which main/hdr.h
-- switches off: clients one after another, and for each the reading of messages and the answers. The
-- texts of the answers are told apart by what they say; mbedtls, the messages and the errors that are
-- only printed are left out.
pub mod Kept
pub mod Start
pub mod Laws
use esp_fmb.Prelude.{
  ℕ, zero, suc, ◌/◌, ◌%◌, ◌+◌, ◌^◌, Bool, true, false, ◌&&◌, ◌||◌, not, Option, none, some, List,
  [], ◌∷◌, ◌==◌, if◌then◌else◌,
}
use esp_fmb.Prelude.Int.{ℤ, pos, negsuc}
use esp_fmb.Control.{Item, Panel, Scan, parser_json_str}

-- The time of the hash, the state of the device, that state with a part asked for, and the refusal.
pub data Reply : Type 0 where
  time_stamp status refusal : Reply
  part : Option ℕ → Reply

-- What `mbedtls_ssl_read` gives. A message is what cJSON makes of it.
pub data Input : Type 0 where
  message : Option (List ℕ → Option Item) → Input
  gone timed_out failed : Input

-- The variables of the task. `ictrl` and `sctrl` are none for -1; `sent` is what was
-- written, the last first. `hash_str` is not cleared behind an error, since it is set anew for the
-- next client.
pub record Tls : Type 0 where
  pub auth : ℕ
  pub eot : ℕ
  pub timeout : ℕ
  pub first : Bool
  pub ictrl : Option ℕ
  pub sctrl : Option ℕ
  pub hash_str : List ℕ
  pub panel : Panel
  pub sent : List Reply

-- What one round reads: whether the loop is to stop before it, the input, and `restart_flag` behind
-- the input.
pub record Turn : Type 0 where
  pub stop : Bool
  pub input : Input
  pub restart_flag : Bool

abbrev pub timeout_auth : ℕ
timeout_auth = 30000

abbrev pub timeout_def : ℕ
timeout_def = 2000

abbrev pub timeout_max : ℕ
timeout_max = 60000

abbrev pub ictrl_get : ℕ
ictrl_get = 10

-- A client that is not let in gets the time, once.
abbrev pub stamp : Bool → List ℕ → Tls → Tls
stamp true hash s = record s { hash_str = hash; first = false; sent = time_stamp ∷ s.sent }
stamp false hash s = s

abbrev pub welcome : List ℕ → Tls → Tls
welcome hash s = stamp ((s.auth == 0) && s.first) hash s

-- `rt & 0xffff` and `rt >> 16`.
abbrev pub command_of : ℤ → ℕ
command_of (pos n) = n % 2 ^ 16
command_of (negsuc n) = 65535

abbrev pub part_of : ℤ → Option ℕ
part_of (pos n) = some (n / 2 ^ 16)
part_of (negsuc n) = none

abbrev pub longer : ℕ → Tls → Tls
longer zero s = s
longer (suc n) s = record s { timeout = timeout_max }

abbrev pub obeyed : Scan × ℤ → Tls → Tls
obeyed (c, rt) s = longer c.au (record s {
  auth = c.au;
  eot = c.rst;
  ictrl = some (command_of rt);
  sctrl = part_of rt;
  panel = c.panel;
})

-- The state after the input, and whether the loop goes on.
abbrev pub after_timeout : ℕ → Tls → Bool × Tls
after_timeout zero s = (false, s)
after_timeout (suc n) s = (true, record s { timeout = timeout_def })

unfoldable pub take_input : Input → Tls → Bool × Tls
take_input (message obj) s = (true, obeyed (parser_json_str s.hash_str obj s.auth 0 s.panel) s)
take_input gone s = (false, s)
take_input timed_out s = after_timeout s.auth s
take_input failed s = (false, s)

abbrev pub granted_reply : Bool → Option ℕ → Reply
granted_reply true sub = part sub
granted_reply false sub = status

abbrev pub reply_for : ℕ → ℕ → Option ℕ → Reply
reply_for zero cmd sub = refusal
reply_for (suc n) cmd sub = granted_reply (cmd == ictrl_get) sub

abbrev pub write_reply : Option ℕ → Tls → Tls
write_reply none s = s
write_reply (some cmd) s = record s {
  ictrl = none;
  sctrl = none;
  sent = reply_for s.auth cmd s.sctrl ∷ s.sent;
}

-- The answer, and whether the loop goes on: not for a client that is not let in, and not when the
-- device is to restart.
abbrev pub answered : Bool → Tls → Bool × Tls
answered true s = (true, s)
answered false s = (not ((s.auth == 0) || not (s.eot == 0)), write_reply s.ictrl s)

abbrev pub if_input : Bool × Tls → Bool → Bool × Tls
if_input (false, s) restart = (false, s)
if_input (true, s) restart = answered restart s

unfoldable pub turn : List ℕ → Turn → Tls → Bool × Tls
turn hash t s = if_input (take_input t.input (welcome hash s)) t.restart_flag

abbrev pub go_on : Bool × Tls → (Tls → Tls) → Tls
go_on (true, s) more = more s
go_on (false, s) more = s

abbrev pub unless_stop : Bool → Tls → Tls → Tls
unless_stop true s more = s
unless_stop false s more = more

-- The read loop. `hash` is what `mk_hash` gives for this client.
unfoldable pub read_loop : List ℕ → List Turn → Tls → Tls
read_loop hash [] s = s
read_loop hash (t ∷ ts) s = unless_stop t.stop s (go_on (turn hash t s) (read_loop hash ts))

pub record Client : Type 0 where
  pub hash : List ℕ
  pub turns : List Turn

-- A client from its handshake to the end of its connection.
unfoldable pub serve_client : Client → Tls → Tls
serve_client c s =
    let e = read_loop c.hash c.turns (record s { first = true }) in record e { auth = 0 }

abbrev pub unless_end : Bool → Tls → Tls → Tls
unless_end true s more = more
unless_end false s more = s

-- The clients one after another, until one has asked for a restart. The list ends where the task
-- stops for another reason; a client whose handshake fails is not in it.
unfoldable pub serve_clients : List Client → Tls → Tls
serve_clients [] s = s
serve_clients (c ∷ cs) s =
    let e = serve_client c s in
    unless_end (e.eot == 0) e (serve_clients cs (record e { timeout = timeout_auth }))
