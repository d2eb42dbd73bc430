-- ===== src/Tests/Ftp.antt =====
-- Runs of the FTP client.
use esp_fmb.Prelude.{
  ℕ, ◌≡◌, refl, ap, sym, ◌∙◌, Bool, true, false, none, some, List, [], ◌∷◌, ◌++◌, ◌==◌, length,
  arith, if◌then◌else◌, Bool-cases, inl, inr, replicate,
}
use esp_fmb.Prelude.Text.{codes, strchr, cut_at}
use esp_fmb.Ftp.Buf.{control, writing, Recv, got, NetBuf, Ctl}
use esp_fmb.Ftp.Line.{read_line, resume, take_in, taken, before_crlf}
use esp_fmb.Ftp.Line.Pieces.{OneLine}
use esp_fmb.Ftp.Reply.{read_response, reply_lines, next_line, send_command, strncmp_eq}
use esp_fmb.Ftp.Reply.Stream.{Reply, many, read_response-reply}
use esp_fmb.Ftp.Reply.Wire.{held, Reads, at_stream}
use esp_fmb.Ftp.Write.{write_line, put_all, flush}
use esp_fmb.Ftp.Write.Laws.{flat, crlf, write_line-crlf}
use esp_fmb.Ftp.Write.Enough.{write_line-enough}
use esp_fmb.Ftp.World.{World, Peer, closesocket}
use esp_fmb.Ftp.World.Owns.{Owns, Ends}
use esp_fmb.Ftp.Access.{file_read, access, close_data}
use esp_fmb.Ftp.Copy.{copied, copy, xfer, get_data, copy_in, read_client}
use esp_fmb.Ftp.Copy.Lines.{at_data, copy-lines}
use esp_fmb.Ftp.Task.{FtpVar, Globals, connect, quit, ftp_cli_task}
use esp_fmb.Ftp.Task.Laws.{ftp_cli_task-clear}
use esp_fmb.Ftp.Requests.{login}
use esp_fmb.Ftp.Port.{open_port, open_passive, made_buf}
use esp_fmb.Ftp.Copy.Balance.{xfer-Owns}

abbrev no_lf : List ℕ → Bool
no_lf [] = true
no_lf (c ∷ s) = let rest = no_lf s in if c == 10 then false else rest

OneLine-no_lf : (s : List ℕ) → no_lf s ≡ true → OneLine s
OneLine-no_lf [] h = tt
OneLine-no_lf (c ∷ s) h = elim (Bool-cases (c == 10)) [
  | inl e ↦ absurd (cc (ap (λ b. if b then false else no_lf s) (sym e) ∙ h))
  | inr e ↦ (ground arith, OneLine-no_lf s (ap (λ b. if b then false else no_lf s) (sym e) ∙ h))
]

-- A control connection in passive mode.
abbrev a_buf : NetBuf
a_buf = record {
  handle = 5;
  dir = control;
  text = true;
  avail = [];
  recvs = [];
  sends = 2048 ∷ 2048 ∷ 2048 ∷ 2048 ∷ 2048 ∷ [];
  sent = [];
}

abbrev a_ctl : Ctl
a_ctl = record { buf = a_buf; response = replicate 1024 0; passive = true }

-- A greeting of three lines.
abbrev a_reply : Reply
a_reply = many 50 50 48 (codes "a") (codes "b" ∷ []) (codes "c")

read_response-reply_example :
    (resp : List ℕ) × Reads
      (λ d.
        read_response b'2'
          (at_stream a_ctl [] (codes "220-a\r\nb\r" ∷ codes "\n220 c\r\n" ∷ []) [] (replicate 8 0))
        ≡ some (true, d))
      []
      a_ctl
      []
      (held (codes "220 c") resp)
read_response-reply_example =
    read_response-reply b'2' a_ctl [] (codes "220-a\r\nb\r" ∷ codes "\n220 c\r\n" ∷ []) []
      (replicate 8 0) a_reply []
      (
        (
          ground arith,
          ground arith,
          (
            ground arith,
            ground arith,
            (ground arith, ground arith, (ground arith, ground arith, tt)),
          ),
        ),
        (OneLine-no_lf (codes "220-a") refl, omega arith),
        (OneLine-no_lf (codes "b") refl, omega arith, refl, tt),
        (OneLine-no_lf (codes "220 c") refl, omega arith),
      )
      refl (omega arith, omega arith, (omega arith, omega arith, tt))

-- A data connection for writing text.
abbrev out_buf : NetBuf
out_buf = record a_buf { dir = writing }

abbrev out_end : NetBuf
out_end = record out_buf { sends = 2048 ∷ 2048 ∷ 2048 ∷ 2048 ∷ []; sent = codes "a\r\n" ∷ [] }

out_runs : write_line (codes "a\n") out_buf ≡ (some 2, out_end)
unfolding write_line put_all flush
out_runs = refl

write_line-crlf_example :
    (2 ≡ length (codes "a\n")) × (flat out_end.sent ≡ flat out_buf.sent ++ crlf 0 (codes "a\n"))
write_line-crlf_example = write_line-crlf (codes "a\n") out_buf 2 out_end out_runs

write_line-enough_example :
    (d : NetBuf) × (write_line (codes "a\n") out_buf ≡ (some 2, d))
    × (flat d.sent ≡ flat out_buf.sent ++ crlf 0 (codes "a\n"))
write_line-enough_example =
    write_line-enough (codes "a\n") out_buf refl
      (omega arith, (omega arith, (omega arith, (omega arith, (omega arith, tt))))) (omega arith)

abbrev a_world : World
a_world = record {
  answers = true ∷ true ∷ true ∷ true ∷ true ∷ true ∷ [];
  peers = [];
  readies = [];
  next = 6;
  sockets = 5 ∷ [];
  live = 2;
  file = none;
  input = [];
  dialled = [];
  sockname = [];
}

copy-lines_example :
    copy file_read
      (at_data a_buf [] (got (codes "ab\r") ∷ got (codes "\n\r\n") ∷ got [] ∷ []))
      (record a_world { answers = true ∷ true ∷ []; file = some [] })
    ≡ copied true
        (at_data a_buf [] [])
        (record a_world { answers = []; file = some (codes "ab\n\n") })
copy-lines_example =
    copy-lines (codes "ab" ∷ [] ∷ []) a_buf (codes "ab\r" ∷ codes "\n\r\n" ∷ []) [] a_world [] []
      refl (omega arith, omega arith, (omega arith, omega arith, tt))
      (OneLine-no_lf (codes "ab") refl, omega arith, (tt, omega arith, tt))

abbrev no_text : World → List ℕ
no_text w = []

abbrev six : List ℕ → List ℕ
six s = 127 ∷ 0 ∷ 0 ∷ 1 ∷ 4 ∷ 1 ∷ []

-- The replies to a transfer.
abbrev transfer_replies : List Recv → List Recv
transfer_replies more =
    got (codes "200 A\r\n227 (\r\n") ∷ got (codes "150 go\r\n") ∷ got (codes "226 ok\r\n") ∷ more

abbrev data_peer : Peer
data_peer = record { recvs = got (codes "a\r\n") ∷ got [] ∷ []; sends = [] }

abbrev ready_ctl : Ctl
ready_ctl = record a_ctl { buf = record a_buf { recvs = transfer_replies [] } }

abbrev ready_world : World
ready_world = record a_world { peers = data_peer ∷ [] }

xfer-Owns_example :
    Ends
      (λ (a : Bool) d v. Owns ready_ctl (5 ∷ []) 2 d v)
      (xfer no_text six (some (codes "x")) file_read 65 ready_ctl ready_world)
xfer-Owns_example = xfer-Owns no_text six (some (codes "x")) file_read 65 ready_ctl ready_world refl

-- A whole session that gets a file of one line.
abbrev control_peer : Peer
control_peer = record {
  recvs =
      got (codes "220 hi\r\n")
      ∷ got (codes "331 pw\r\n230 in\r\n")
      ∷ transfer_replies (got (codes "221 bye\r\n") ∷ []);
  sends = replicate 8 2048;
}

abbrev first_world : World
first_world = record {
  answers = replicate 11 true;
  peers = control_peer ∷ data_peer ∷ [];
  readies = [];
  next = 5;
  sockets = [];
  live = 0;
  file = none;
  input = [];
  dialled = [];
  sockname = [];
}

abbrev last_world : World
last_world = record first_world {
  answers = [];
  peers = [];
  next = 7;
  file = some (codes "a\n");
  dialled = (4 ∷ 1 ∷ 127 ∷ 0 ∷ 0 ∷ 1 ∷ []) ∷ [];
}

abbrev a_var : FtpVar
a_var = record {
  dev_login = codes "u";
  dev_passwd = codes "p";
  dev_conf = codes "c";
  dev_mnt = true;
}

abbrev idle : Globals
idle = record { ftp_start = 0; total_task = 3; get_file_ok = false }

task_runs :
    ftp_cli_task no_text six a_var idle first_world
    ≡ some (record idle { get_file_ok = true }, last_world)
unfolding ftp_cli_task connect read_response next_line read_line resume take_in taken before_crlf
    login send_command get_data xfer access open_port open_passive strchr cut_at made_buf copy_in
    read_client close_data closesocket quit reply_lines strncmp_eq
task_runs = refl

ftp_cli_task-clear_example :
    (last_world.sockets ≡ []) × (last_world.live ≡ 0) × (idle.ftp_start ≡ 0) × (idle.total_task ≡ 3)
ftp_cli_task-clear_example =
    ftp_cli_task-clear no_text six a_var idle (record idle { get_file_ok = true }) first_world
      last_world (omega arith) (omega arith) task_runs
