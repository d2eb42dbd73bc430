-- ===== src/Control/Serve/Start.antt =====
-- The next start reads the settings that the commands have changed.
use esp_fmb.Prelude.{
  ℕ, zero, suc, ◌/◌, ◌%◌, ◌≤◌, ◌≡◌, refl, ap, ◌∙◌, true, false, some, List, [], ◌∷◌, ◌++◌, length,
  drop, length-drop, overlay, replicate, length-append, length-replicate, append-nil, arith,
}
use esp_fmb.Prelude.Text.{codes}
use esp_fmb.Settings.{Nvs, read_param, param, cleared, wmode, wifi_mode, kept}
use esp_fmb.Settings.Boot.{
  Build, Settings, read_settings, text_param, cli_id_of, sntp_srv_len, wifi_param_len, ftp_pole_len,
  tls_port_def, ftp_port_def, Step,
}
use esp_fmb.Settings.Boot.Steps.{Works, Reads, param-Reads, wifi_mode-Reads}
use esp_fmb.Settings.Boot.Laws.{text_param-Reads}
use esp_fmb.Control.{Panel, strcmp_eq}
use esp_fmb.Control.Serve.{Tls, Client, serve_clients}
use esp_fmb.Control.Serve.Kept.{serve_clients-IsKept}
use esp_fmb.Control.Kept.{
  Setting, server, zone, address, port, login, passwd, name_of, len_of, value_of, replay, IsKept,
}

drop-all : (n : ℕ) (s : List ℕ) → length s ≤ n → drop n s ≡ []
drop-all zero [] h = refl
drop-all zero (x ∷ s) h = absurd (omega arith)
drop-all (suc n) [] h = refl
drop-all (suc n) (x ∷ s) h = drop-all n s (omega arith)

overlay-all : (d s : List ℕ) → length s ≤ length d → overlay d s ≡ d
overlay-all d s h = ap (λ l. d ++ l) (drop-all (length d) s h) ∙ append-nil d

cleared-ge : (n : ℕ) (t : List ℕ) → n ≤ length (cleared n t)
cleared-ge n t = omega (
  arith,
  length-append t (drop (length t) (replicate {A = ℕ} n 0)),
  length-drop (length t) (replicate {A = ℕ} n 0),
  length-replicate {A = ℕ} n 0,
)

-- The settings of a start are those of the variables.
abbrev pub Agrees : Settings → Panel → Type 0
Agrees r p =
    (r.work_sntp ≡ cleared 32 p.work_sntp)
    × (r.time_zone ≡ cleared 32 p.time_zone)
    × (r.ftp_srv_addr ≡ cleared 16 p.ftp_srv_addr)
    × (r.ftp_srv_port ≡ p.ftp_srv_port % 256 ∷ p.ftp_srv_port / 256 ∷ [])
    × (r.ftp_srv_login ≡ cleared 16 p.ftp_srv_login)
    × (r.ftp_srv_passwd ≡ cleared 16 p.ftp_srv_passwd)

module _ {F : Type 0} (nvs : Nvs F) (works : Works nvs) (b : Build) (f : F) where
  -- Settings apart from these names are read as in the flash `f`.
  abbrev Apart : List ℕ → List (List ℕ) → Type 0
  Apart c [] = Unit
  Apart c (a ∷ names) = (strcmp_eq a c ≡ false) × Apart c names

  abbrev Past : List (List ℕ) → F → Type 0
  Past names g = (c : List ℕ) (n : ℕ) → Apart c names → read_param nvs c n g ≡ read_param nvs c n f

  Past-step :
      {A : Type 0} (a : List ℕ) (names : List (List ℕ)) (m m' : Step F A) (g : F)
      → Reads nvs works a m m'
      → Past names g
      → Past (a ∷ names) (m g).1
  Past-step a names m m' g r p c n h = r.apart c n g h.0 ∙ p c n h.1

  param-found :
      (name start fallback blob : List ℕ) (g : F)
      → read_param nvs name (length start) g ≡ some blob
      → length start ≤ length blob
      → (param nvs true name start fallback g).0 ≡ blob
  unfolding param
  param-found name start fallback blob g e h =
      ap (λ o. (kept nvs true o name start fallback g).0) e ∙ overlay-all blob start h

  -- The names read before a step, and the flash then.
  abbrev names_id : List (List ℕ)
  names_id = codes "cliid" ∷ []

  abbrev after_id : F
  after_id = (param nvs true (codes "cliid") (cli_id_of b.macs) (cli_id_of b.macs) f).1

  abbrev names_sntp : List (List ℕ)
  names_sntp = codes "sntp" ∷ names_id

  abbrev after_sntp : F
  after_sntp = (text_param nvs true (codes "sntp") sntp_srv_len (codes "pool.ntp.org") after_id).1

  abbrev names_zone : List (List ℕ)
  names_zone = codes "tzone" ∷ names_sntp

  abbrev after_zone : F
  after_zone = (text_param nvs true (codes "tzone") sntp_srv_len (codes "EET-2") after_sntp).1

  abbrev names_mode : List (List ℕ)
  names_mode = wmode ∷ names_zone

  abbrev after_mode : F
  after_mode = (wifi_mode nvs b.wmode_pin b.wtmp b.wifi_mode_ap after_zone).1

  abbrev names_ssid : List (List ℕ)
  names_ssid = codes "ssid" ∷ names_mode

  abbrev after_ssid : F
  after_ssid = (text_param nvs b.wifi_pin (codes "ssid") wifi_param_len b.wifi_ssid after_mode).1

  abbrev names_pass : List (List ℕ)
  names_pass = codes "key" ∷ names_ssid

  abbrev after_pass : F
  after_pass = (text_param nvs b.wifi_pin (codes "key") wifi_param_len b.wifi_pass after_ssid).1

  abbrev names_tls : List (List ℕ)
  names_tls = codes "tport" ∷ names_pass

  abbrev after_tls : F
  after_tls = (param nvs b.wifi_pin (codes "tport") (0 ∷ 0 ∷ []) tls_port_def after_pass).1

  abbrev names_addr : List (List ℕ)
  names_addr = codes "ftpip" ∷ names_tls

  abbrev after_addr : F
  after_addr =
      (text_param nvs true (codes "ftpip") ftp_pole_len (codes "192.168.0.101") after_tls).1

  abbrev names_port : List (List ℕ)
  names_port = codes "ftpprt" ∷ names_addr

  abbrev after_port : F
  after_port = (param nvs true (codes "ftpprt") ftp_port_def ftp_port_def after_addr).1

  abbrev names_login : List (List ℕ)
  names_login = codes "test" ∷ names_port

  abbrev after_login : F
  after_login = (text_param nvs true (codes "test") ftp_pole_len (codes "test") after_port).1

  module _ (h : length b.wifi_ssid ≤ wifi_param_len) (k : length b.wifi_pass ≤ wifi_param_len) where
    Past-id : Past names_id after_id
    Past-id =
        Past-step (codes "cliid") []
          (param nvs true (codes "cliid") (cli_id_of b.macs) (cli_id_of b.macs)) _ f
          (param-Reads nvs works true (codes "cliid") (cli_id_of b.macs) (cli_id_of b.macs) refl)
          (λ c n e. refl)

    Past-sntp : Past names_sntp after_sntp
    Past-sntp =
        Past-step (codes "sntp") names_id
          (text_param nvs true (codes "sntp") sntp_srv_len (codes "pool.ntp.org")) _ after_id
          (text_param-Reads nvs works true (codes "sntp") sntp_srv_len (codes "pool.ntp.org")
            (omega arith))
          Past-id

    Past-zone : Past names_zone after_zone
    Past-zone =
        Past-step (codes "tzone") names_sntp
          (text_param nvs true (codes "tzone") sntp_srv_len (codes "EET-2")) _ after_sntp
          (text_param-Reads nvs works true (codes "tzone") sntp_srv_len (codes "EET-2")
            (omega arith))
          Past-sntp

    Past-mode : Past names_mode after_mode
    Past-mode =
        Past-step wmode names_zone (wifi_mode nvs b.wmode_pin b.wtmp b.wifi_mode_ap) _ after_zone
          (wifi_mode-Reads nvs works b.wmode_pin b.wtmp b.wifi_mode_ap) Past-zone

    Past-ssid : Past names_ssid after_ssid
    Past-ssid =
        Past-step (codes "ssid") names_mode
          (text_param nvs b.wifi_pin (codes "ssid") wifi_param_len b.wifi_ssid) _ after_mode
          (text_param-Reads nvs works b.wifi_pin (codes "ssid") wifi_param_len b.wifi_ssid h)
          Past-mode

    Past-pass : Past names_pass after_pass
    Past-pass =
        Past-step (codes "key") names_ssid
          (text_param nvs b.wifi_pin (codes "key") wifi_param_len b.wifi_pass) _ after_ssid
          (text_param-Reads nvs works b.wifi_pin (codes "key") wifi_param_len b.wifi_pass k)
          Past-ssid

    Past-tls : Past names_tls after_tls
    Past-tls =
        Past-step (codes "tport") names_pass
          (param nvs b.wifi_pin (codes "tport") (0 ∷ 0 ∷ []) tls_port_def) _ after_pass
          (param-Reads nvs works b.wifi_pin (codes "tport") (0 ∷ 0 ∷ []) tls_port_def refl)
          Past-pass

    Past-addr : Past names_addr after_addr
    Past-addr =
        Past-step (codes "ftpip") names_tls
          (text_param nvs true (codes "ftpip") ftp_pole_len (codes "192.168.0.101")) _ after_tls
          (text_param-Reads nvs works true (codes "ftpip") ftp_pole_len (codes "192.168.0.101")
            (omega arith))
          Past-tls

    Past-port : Past names_port after_port
    Past-port =
        Past-step (codes "ftpprt") names_addr
          (param nvs true (codes "ftpprt") ftp_port_def ftp_port_def) _ after_addr
          (param-Reads nvs works true (codes "ftpprt") ftp_port_def ftp_port_def refl) Past-addr

    Past-login : Past names_login after_login
    Past-login =
        Past-step (codes "test") names_port
          (text_param nvs true (codes "test") ftp_pole_len (codes "test")) _ after_port
          (text_param-Reads nvs works true (codes "test") ftp_pole_len (codes "test") (omega arith))
          Past-port

    -- Each setting is in the flash before the step that reads it.
    Agrees-start :
        (p : Panel)
        → ((x : Setting) → read_param nvs (name_of x) (len_of x) f ≡ some (value_of x p))
        → Agrees (read_settings nvs b f).0 p
    unfolding read_settings
    Agrees-start p e = (
      param-found (codes "sntp") (replicate 32 0) (cleared 32 (codes "pool.ntp.org"))
          (value_of server p) after_id (Past-id (codes "sntp") 32 (ground arith) ∙ e server)
          (cleared-ge 32 p.work_sntp),
      param-found (codes "tzone") (replicate 32 0) (cleared 32 (codes "EET-2")) (value_of zone p)
          after_sntp (Past-sntp (codes "tzone") 32 (ground arith) ∙ e zone)
          (cleared-ge 32 p.time_zone),
      param-found (codes "ftpip") (replicate 16 0) (cleared 16 (codes "192.168.0.101"))
          (value_of address p) after_tls (Past-tls (codes "ftpip") 16 (ground arith) ∙ e address)
          (cleared-ge 16 p.ftp_srv_addr),
      param-found (codes "ftpprt") ftp_port_def ftp_port_def (value_of port p) after_addr
          (Past-addr (codes "ftpprt") 2 (ground arith) ∙ e port) (omega arith),
      param-found (codes "test") (replicate 16 0) (cleared 16 (codes "test")) (value_of login p)
          after_port (Past-port (codes "test") 16 (ground arith) ∙ e login)
          (cleared-ge 16 p.ftp_srv_login),
      param-found (codes "9999") (replicate 16 0) (cleared 16 (codes "9999")) (value_of passwd p)
          after_login (Past-login (codes "9999") 16 (ground arith) ∙ e passwd)
          (cleared-ge 16 p.ftp_srv_passwd),
    )

-- With a storage that works: when the flash holds the six settings that the commands change as the
-- variables hold them, then after any clients with any messages, let in or not, the next start reads
-- all six as the variables hold them by then.
pub serve_clients-start :
    {F : Type 0} (nvs : Nvs F) (works : Works nvs) (flash : F) (cs : List Client) (s : Tls)
    (b : Build)
    → IsKept nvs works flash s.panel
    → length b.wifi_ssid ≤ wifi_param_len
    → length b.wifi_pass ≤ wifi_param_len
    → Agrees
        (read_settings nvs b (replay nvs works flash (serve_clients cs s).panel.saved)).0
        (serve_clients cs s).panel
serve_clients-start nvs works flash cs s b k h l =
    let p = (serve_clients cs s).panel in
    Agrees-start nvs works b (replay nvs works flash p.saved) h l p
      (serve_clients-IsKept nvs works flash cs s k)
