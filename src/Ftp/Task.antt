-- ===== src/Ftp/Task.antt =====
-- `connectFtpClient`, `quitFtpClient` and `ftp_cli_task` of main/ftp_cli.c. What a task is given beside
-- the names of its server and files is left out: the event group, the memory figures and the messages.
pub mod Laws
pub mod Owns
use esp_fmb.Prelude.{
  ℕ, suc, ◌+◌, ◌-◌, ◌%◌, ◌^◌, Bool, true, false, Option, none, some, List, [], ◌∷◌, replicate, ltb,
}
use esp_fmb.Prelude.Text.{codes}
use esp_fmb.Ftp.Buf.{control, reading, writing, Dir, NetBuf, Ctl, response_size}
use esp_fmb.Ftp.Reply.{read_response, send_command}
use esp_fmb.Ftp.Requests.{login}
use esp_fmb.Ftp.World.{World, Peer, ask, socket, closesocket, alloc, free, peer, Step, bind, on_ctl}
use esp_fmb.Ftp.Port.{ascii}
use esp_fmb.Ftp.Copy.{get_data}

-- `calloc` and the settings of a new control connection.
abbrev pub new_ctl : ℕ → Peer → Ctl
new_ctl h p = record {
  buf = record {
    handle = h;
    dir = control;
    text = true;
    avail = [];
    recvs = p.recvs;
    sends = p.sends;
    sent = [];
  };
  response = replicate response_size 0;
  passive = true;
}

abbrev pub Connected : Type 0
Connected = Option (Option Ctl × World)

-- The greeting.
abbrev pub greeted : ℕ → World → Option (Bool × Ctl) → Connected
greeted h w none = none
greeted h w (some (true, c)) = some (some c, w)
greeted h w (some (false, c)) = some (none, free (free (closesocket h w)))

abbrev pub with_buf : ℕ → Bool × World → Connected
with_buf h (false, w) = some (none, free (closesocket h w))
with_buf h (true, w) = let (p, v) = peer w in greeted h v (read_response b'2' (new_ctl h p))

abbrev pub with_ctrl : ℕ → Bool × World → Connected
with_ctrl h (false, w) = some (none, closesocket h w)
with_ctrl h (true, w) = with_buf h (alloc w)

abbrev pub with_server : ℕ → Bool × World → Connected
with_server h (false, w) = some (none, closesocket h w)
with_server h (true, w) = with_ctrl h (alloc w)

abbrev pub with_socket : Option ℕ × World → Connected
with_socket (none, w) = some (none, w)
with_socket (some h, w) = with_server h (ask w)

unfoldable pub connect : World → Connected
connect w = with_socket (socket w)

abbrev pub close_if : Bool → ℕ → World → World
close_if true h w = closesocket h w
close_if false h w = w

abbrev pub if_text : Bool → World → World
if_text true w = free w
if_text false w = w

abbrev pub released : World → Option (Bool × Ctl) → Option World
released w none = none
released w (some (ok, c)) =
    some (free (if_text c.buf.text (close_if (ltb 0 c.buf.handle) c.buf.handle w)))

abbrev pub if_ctl : Dir → Option World → World → Option World
if_ctl control r w = r
if_ctl reading r w = some w
if_ctl writing r w = some w

-- For a connection that is there.
unfoldable pub quit : Ctl → World → Option World
quit c w = if_ctl c.buf.dir (released w (send_command (codes "QUIT") b'2' c)) w

-- `ftp_start`, `total_task` and `getFileOK`.
pub record Globals : Type 0 where
  pub ftp_start : ℕ
  pub total_task : ℕ
  pub get_file_ok : Bool

-- The user, the password and the file of `s_ftp_var`, and whether the disk is mounted.
pub record FtpVar : Type 0 where
  pub dev_login : List ℕ
  pub dev_passwd : List ℕ
  pub dev_conf : List ℕ
  pub dev_mnt : Bool

abbrev pub Outcome : Type 0
Outcome = Option (Bool × World)

abbrev pub with_ret : Bool → Option World → Outcome
with_ret ret none = none
with_ret ret (some w) = some (ret, w)

abbrev pub quit_after : Step Bool → Outcome
quit_after none = none
quit_after (some (ret, c, w)) = with_ret ret (quit c w)

module _ (strerror : World → List ℕ) (sscanf_u6 : List ℕ → List ℕ) (var : FtpVar) where
  abbrev pub if_mounted : Bool → Ctl → World → Step Bool
  if_mounted true c w = get_data strerror sscanf_u6 (some var.dev_conf) ascii c w
  if_mounted false c w = some (false, c, w)

  abbrev pub if_login : Bool → Ctl → World → Step Bool
  if_login true c w = if_mounted var.dev_mnt c w
  if_login false c w = some (false, c, w)

  abbrev pub session : Connected → Outcome
  session none = none
  session (some (none, w)) = some (false, w)
  session (some (some c, w)) =
      quit_after (bind (on_ctl w (login var.dev_login var.dev_passwd c)) if_login)

  abbrev pub task_end : Globals → Outcome → Option (Globals × World)
  task_end g none = none
  task_end g (some (ret, w)) =
      some (record { ftp_start = 0; total_task = g.total_task - 1; get_file_ok = ret }, w)

  abbrev pub task_start : Globals → Globals
  task_start g = record {
    ftp_start = 1;
    total_task = (g.total_task + 1) % 2 ^ 8;
    get_file_ok = false;
  }

  unfoldable pub ftp_cli_task : Globals → World → Option (Globals × World)
  ftp_cli_task g w = task_end (task_start g) (session (connect w))
