-- ===== src/Settings/Boot.antt =====
-- What `app_main` of main/main.c reads from the flash when the device starts, setting by setting, with
-- the lengths, names and defaults of main/main.h and main/ftp_cli.h.
pub mod Steps
pub mod Laws
use esp_fmb.Prelude.{
  ℕ, ◌+◌, ◌*◌, Bool, true, Option, none, some, List, [], ◌∷◌, get_or, replicate, take, drop,
}
use mathlib.Core.List.{reverse}
use esp_fmb.Prelude.Text.{codes}
use esp_fmb.Settings.{Nvs, param, cleared, wifi_mode}

abbrev pub sntp_srv_len : ℕ
sntp_srv_len = 32

abbrev pub wifi_param_len : ℕ
wifi_param_len = 32

abbrev pub ftp_pole_len : ℕ
ftp_pole_len = 16

-- 4545 and 9221 as they stand in memory.
abbrev pub tls_port_def : List ℕ
tls_port_def = 193 ∷ 17 ∷ []

abbrev pub ftp_port_def : List ℕ
ftp_port_def = 5 ∷ 36 ∷ []

-- The bytes of `cli_id`: the last four of the address, with the order of bytes turned round.
unfoldable pub cli_id_of : Option (List ℕ) → List ℕ
cli_id_of none = replicate 4 0
cli_id_of (some macs) = reverse (take 4 (drop 2 macs))

-- The values as the program has them afterwards, each as the bytes of its variable.
pub record Settings : Type 0 where
  pub cli_id : List ℕ
  pub work_sntp : List ℕ
  pub time_zone : List ℕ
  pub wmode : ℕ
  pub work_ssid : List ℕ
  pub work_pass : List ℕ
  pub tls_port : List ℕ
  pub ftp_srv_addr : List ℕ
  pub ftp_srv_port : List ℕ
  pub ftp_srv_login : List ℕ
  pub ftp_srv_passwd : List ℕ

-- The two pins, true when released, the address of the chip, the names of the build, what `wtmp` holds
-- at first, and the number of WIFI_MODE_AP.
pub record Build : Type 0 where
  pub wifi_pin : Bool
  pub wmode_pin : Bool
  pub macs : Option (List ℕ)
  pub wifi_ssid : List ℕ
  pub wifi_pass : List ℕ
  pub wtmp : ℕ
  pub wifi_mode_ap : ℕ

-- A step that reads and changes the flash.
abbrev pub Step : Type 0 → Type 0 → Type 0
Step F A = F → A × F

infixl 5 ◌>>=◌
abbrev pub ◌>>=◌ : {F A B : Type 0} → Step F A → (A → Step F B) → Step F B
(m >>= k) f = let (a, g) = m f in k a g

abbrev pub pure : {F A : Type 0} → A → Step F A
pure a f = (a, f)

module _ {F : Type 0} (nvs : Nvs F) where
  -- `memset`, and a text that stands in a buffer of `len` bytes.
  abbrev pub text_param : Bool → List ℕ → ℕ → List ℕ → Step F (List ℕ)
  text_param keep name len text = param nvs keep name (replicate len 0) (cleared len text)

  unfoldable pub read_settings : Build → Step F Settings
  read_settings b = do
    cli ← param nvs true (codes "cliid") (cli_id_of b.macs) (cli_id_of b.macs)
    sntp ← text_param true (codes "sntp") sntp_srv_len (codes "pool.ntp.org")
    zone ← text_param true (codes "tzone") sntp_srv_len (codes "EET-2")
    mode ← wifi_mode nvs b.wmode_pin b.wtmp b.wifi_mode_ap
    ssid ← text_param b.wifi_pin (codes "ssid") wifi_param_len b.wifi_ssid
    pass ← text_param b.wifi_pin (codes "key") wifi_param_len b.wifi_pass
    tls ← param nvs b.wifi_pin (codes "tport") (0 ∷ 0 ∷ []) tls_port_def
    addr ← text_param true (codes "ftpip") ftp_pole_len (codes "192.168.0.101")
    port ← param nvs true (codes "ftpprt") ftp_port_def ftp_port_def
    login ← text_param true (codes "test") ftp_pole_len (codes "test")
    passwd ← text_param true (codes "9999") ftp_pole_len (codes "9999")
    pure (record {
      cli_id = cli;
      work_sntp = sntp;
      time_zone = zone;
      wmode = mode;
      work_ssid = ssid;
      work_pass = pass;
      tls_port = tls;
      ftp_srv_addr = addr;
      ftp_srv_port = port;
      ftp_srv_login = login;
      ftp_srv_passwd = passwd;
    })
