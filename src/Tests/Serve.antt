-- ===== src/Tests/Serve.antt =====
-- Two clients of the TLS server that do not know the hash.
use esp_fmb.Prelude.{refl, true, false, none, some, [], ◌∷◌}
use esp_fmb.Control.Serve.{
  Tls, Turn, Client, Input, message, timed_out, serve_clients, timeout_auth,
}
use esp_fmb.Control.Serve.Laws.{Barred, serve_clients-Barred}
use esp_fmb.Prelude.Text.{codes}
use esp_fmb.Tests.Commands.{panel, restart_message}

abbrev start_tls : Tls
start_tls = record {
  auth = 0;
  eot = 0;
  timeout = timeout_auth;
  first = true;
  ictrl = none;
  sctrl = none;
  hash_str = [];
  panel = panel;
  sent = [];
}

abbrev turn_of : Input → Turn
turn_of i = record { stop = false; input = i; restart_flag = false }

abbrev unreadable : Client
unreadable = record { hash = codes "5e884"; turns = turn_of (message none) ∷ [] }

abbrev intruder : Client
intruder = record {
  hash = codes "0a5f1";
  turns = turn_of (message (some restart_message)) ∷ turn_of timed_out ∷ [];
}

serve_clients-Barred_example :
    Barred panel [] (serve_clients (unreadable ∷ intruder ∷ []) start_tls)
serve_clients-Barred_example =
    serve_clients-Barred (unreadable ∷ intruder ∷ []) start_tls ((tt, tt), ((refl, (tt, tt)), tt))
      refl
