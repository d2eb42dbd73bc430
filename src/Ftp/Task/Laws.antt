-- ===== src/Ftp/Task/Laws.antt =====
-- The task gives back the sockets and the memory that it took.
use esp_fmb.Prelude.{ℕ, ◌+◌, ◌-◌, ◌≤◌, ◌<◌, ◌≡◌, refl, sym, ap, ◌∙◌, none, some, List, arith}
use esp_fmb.Ftp.World.{World, if_opened}
use esp_fmb.Ftp.World.Owns.{ask-elim}
use esp_fmb.Ftp.Task.{
  with_socket, connect, Globals, FtpVar, Outcome, session, task_end, task_start, ftp_cli_task,
}
use esp_fmb.Ftp.Task.Owns.{session-Gives, with_socket-Connects, Connects, Gives}

connect-Connects : (w : World) → 1 ≤ w.next → Connects w.sockets w.live (connect w)
unfolding connect
connect-Connects w p =
    ask-elim w (λ r. Connects w.sockets w.live (with_socket (if_opened r)))
      (λ a l. with_socket-Connects w.sockets w.live a l w p (refl, refl))

task_end-Clear :
    (strerror : World → List ℕ) (sscanf_u6 : List ℕ → List ℕ) (var : FtpVar) (socks : List ℕ)
    (live n : ℕ) (g h : Globals) (r : Outcome) (v : World)
    → Gives socks live r
    → g.total_task ≡ n + 1
    → task_end strerror sscanf_u6 var g r ≡ some (h, v)
    → (v.sockets ≡ socks) × (v.live ≡ live) × (h.ftp_start ≡ 0) × (h.total_task ≡ n)
task_end-Clear strerror sscanf_u6 var socks live n g h none v o e f = cc f
task_end-Clear strerror sscanf_u6 var socks live n g h (some (ret, w)) v o e f =
    let end : Globals = record {
      ftp_start = 0;
      total_task = g.total_task - 1;
      get_file_ok = ret;
    } in
    let x : w ≡ v = cc f in
    let y : end ≡ h = cc f in
    (
      ap (λ (z : World). z.sockets) (sym x) ∙ o.0,
      ap (λ (z : World). z.live) (sym x) ∙ o.1,
      ap (λ (z : Globals). z.ftp_start) (sym y),
      ap (λ (z : Globals). z.total_task) (sym y) ∙ omega (arith, e),
    )

-- A task that comes to its end has closed each socket and freed all memory that it took, whatever
-- fails on the way, and has set `ftp_start` and `total_task` back. Sockets have numbers above 0, and
-- fewer than 255 tasks run.
pub ftp_cli_task-clear :
    (strerror : World → List ℕ) (sscanf_u6 : List ℕ → List ℕ) (var : FtpVar) (g h : Globals)
    (w v : World)
    → 1 ≤ w.next
    → g.total_task < 255
    → ftp_cli_task strerror sscanf_u6 var g w ≡ some (h, v)
    → (v.sockets ≡ w.sockets)
      × (v.live ≡ w.live)
      × (h.ftp_start ≡ 0)
      × (h.total_task ≡ g.total_task)
unfolding ftp_cli_task
ftp_cli_task-clear strerror sscanf_u6 var g h w v p t e =
    task_end-Clear strerror sscanf_u6 var w.sockets w.live g.total_task
      (task_start strerror sscanf_u6 var g) h (session strerror sscanf_u6 var (connect w)) v
      (session-Gives w.sockets w.live strerror sscanf_u6 var (connect w) (connect-Connects w p))
      (omega arith) e
