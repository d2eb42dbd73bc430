-- ===== src/Tests/Kept.antt =====
-- A client that is let in names another clock server; the next start asks that one.
use esp_fmb.Prelude.{ℕ, ◌≡◌, refl, arith, true, false, none, some, List, [], ◌∷◌, if◌then◌else◌}
use esp_fmb.Prelude.Text.{codes}
use esp_fmb.Control.{
  Panel, string, strcmp_eq, parser_json_str, scan_names, handle, control, get_json_str,
}
use esp_fmb.Settings.Boot.{read_settings}
use esp_fmb.Control.Kept.{server, zone, address, port, login, passwd, value_of, replay, IsKept}
use esp_fmb.Control.Serve.{
  Tls, Turn, Client, message, serve_clients, timeout_auth, read_loop, serve_client, turn,
  take_input,
}
use esp_fmb.Control.Serve.Start.{Agrees, serve_clients-start}
use esp_fmb.Tests.Settings.{Flash, flash, flash-Works, build}

abbrev first_panel : Panel
first_panel = record {
  sntp_go = 0;
  work_sntp = codes "pool.ntp.org";
  time_zone = codes "EET-2";
  clock = none;
  to_sd = false;
  ftp_go_flag = 0;
  ftp_srv_port = 9221;
  ftp_srv_addr = codes "192.168.0.101";
  ftp_srv_login = codes "test";
  ftp_srv_passwd = codes "9999";
  saved = [];
}

abbrev filled : Flash
filled name =
    if strcmp_eq name (codes "sntp")
    then some (value_of server first_panel)
    else if strcmp_eq name (codes "tzone")
    then some (value_of zone first_panel)
    else if strcmp_eq name (codes "ftpip")
    then some (value_of address first_panel)
    else if strcmp_eq name (codes "ftpprt")
    then some (value_of port first_panel)
    else if strcmp_eq name (codes "test")
    then some (value_of login first_panel)
    else if strcmp_eq name (codes "9999")
    then some (value_of passwd first_panel)
    else none

filled-IsKept : IsKept flash flash-Works filled first_panel
filled-IsKept server = refl
filled-IsKept zone = refl
filled-IsKept address = refl
filled-IsKept port = refl
filled-IsKept login = refl
filled-IsKept passwd = refl

abbrev first_tls : Tls
first_tls = record {
  auth = 0;
  eot = 0;
  timeout = timeout_auth;
  first = true;
  ictrl = none;
  sctrl = none;
  hash_str = [];
  panel = first_panel;
  sent = [];
}

-- The object with one item.
abbrev item_of : List ℕ → List ℕ → Turn
item_of name val = record {
  stop = false;
  input = message (some (λ other. if strcmp_eq other name then some (string (some val)) else none));
  restart_flag = false;
}

abbrev friend : Client
friend = record {
  hash = codes "0A5F";
  turns =
      item_of (codes "auth") (codes "\"0A5F\"")
      ∷ item_of (codes "sntp_srv") (codes "\"ru.pool.ntp.org\"")
      ∷ [];
}

serve_clients-start_example :
    Agrees
      (read_settings flash build
        (replay flash flash-Works filled (serve_clients (friend ∷ []) first_tls).panel.saved)).0
      (serve_clients (friend ∷ []) first_tls).panel
serve_clients-start_example =
    serve_clients-start flash flash-Works filled (friend ∷ []) first_tls build filled-IsKept
      (omega arith) (omega arith)

new_server : (serve_clients (friend ∷ []) first_tls).panel.work_sntp ≡ codes "ru.pool.ntp.org"
unfolding serve_clients serve_client read_loop turn take_input parser_json_str scan_names handle
    control get_json_str
new_server = refl
