-- ===== src/Settings/Boot/Laws.antt =====
-- A second start of the device.
use esp_fmb.Prelude.{
  ℕ, ◌≡◌, ◌≤◌, refl, sym, ap, ◌∙◌, Bool, true, false, List, [], ◌∷◌, length, replicate,
  length-replicate, arith,
}
use esp_fmb.Prelude.Text.{codes}
use esp_fmb.Control.{strcmp_eq}
use esp_fmb.Settings.{Nvs, read_param, cleared, wmode}
use esp_fmb.Settings.Laws.{length-overlay}
use esp_fmb.Settings.Boot.Steps.{Works, Reads, param-Reads, wifi_mode-Reads}
use esp_fmb.Settings.Boot.{
  Build, Step, ◌>>=◌, pure, read_settings, cli_id_of, text_param, sntp_srv_len, wifi_param_len,
  ftp_pole_len, tls_port_def, ftp_port_def,
}

module _ {F : Type 0} (nvs : Nvs F) (works : Works nvs) where
  -- The settings of these names are read alike.
  abbrev Same : List (List ℕ) → F → F → Type 0
  Same [] g f = Unit
  Same (a ∷ names) g f = ((n : ℕ) → read_param nvs a n g ≡ read_param nvs a n f) × Same names g f

  abbrev Apart : List ℕ → List (List ℕ) → Type 0
  Apart c [] = Unit
  Apart c (a ∷ names) = (strcmp_eq a c ≡ false) × Apart c names

  -- The same for a sequence of steps.
  record Settled (names : List (List ℕ)) {A : Type 0} (m m' : Step F A) : Type 0 where
    again : (f g : F) → Same names g (m f).1 → m' g ≡ ((m f).0, g)
    apart :
        (c : List ℕ) (n : ℕ) (f : F)
        → Apart c names
        → read_param nvs c n (m f).1 ≡ read_param nvs c n f

  Same-self : (names : List (List ℕ)) (f : F) → Same names f f
  Same-self [] f = tt
  Same-self (a ∷ names) f = (λ n. refl, Same-self names f)

  pure-Settled : {A : Type 0} (x : A) → Settled [] (pure x) (pure x)
  pure-Settled x = record { again = λ f g h. refl; apart = λ c n f h. refl }

  bind-Settled :
      {a : List ℕ} {names : List (List ℕ)} {A B : Type 0} {m m' : Step F A} {k k' : A → Step F B}
      → Reads nvs works a m m'
      → Apart a names
      → ((x : A) → Settled names (k x) (k' x))
      → Settled (a ∷ names) (m >>= k) (m' >>= k')
  bind-Settled {a} {names} {m} {m'} {k} {k'} r d s = record {
    again = λ f g h.
        let x = (m f).0 in
        let e = r.again f g (λ n. h.0 n ∙ (s x).apart a n (m f).1 d) in
        ap (λ t. k' t.0 t.1) e ∙ (s x).again (m f).1 g h.1;
    apart = λ c n f h. (s (m f).0).apart c n (m f).1 h.1 ∙ r.apart c n f h.0;
  }

  pub text_param-Reads :
      (keep : Bool) (name : List ℕ) (len : ℕ) (text : List ℕ)
      → length text ≤ len
      → Reads nvs works name (text_param nvs keep name len text) (text_param nvs true name len text)
  text_param-Reads keep name len text l =
      param-Reads nvs works keep name (replicate len 0) (cleared len text)
        (length-overlay text len l ∙ sym (length-replicate len 0))

-- The second start, with the pins released.
abbrev pub released : Build → Build
released b = record b { wifi_pin = true; wmode_pin = true }

-- The names in the order of their reading.
abbrev names_read : List (List ℕ)
names_read =
    codes "cliid"
    ∷ codes "sntp"
    ∷ codes "tzone"
    ∷ wmode
    ∷ codes "ssid"
    ∷ codes "key"
    ∷ codes "tport"
    ∷ codes "ftpip"
    ∷ codes "ftpprt"
    ∷ codes "test"
    ∷ codes "9999"
    ∷ []

module _ {F : Type 0} (nvs : Nvs F) (works : Works nvs) (b : Build) where
  read_settings-Settled :
      length b.wifi_ssid ≤ wifi_param_len
      → length b.wifi_pass ≤ wifi_param_len
      → Settled nvs works names_read (read_settings nvs b) (read_settings nvs (released b))
  unfolding read_settings
  read_settings-Settled s p =
      bind-Settled nvs works
        (param-Reads nvs works true (codes "cliid") (cli_id_of b.macs) (cli_id_of b.macs) refl)
        (ground arith)
        λ cli.
          bind-Settled nvs works
            (text_param-Reads nvs works true (codes "sntp") sntp_srv_len (codes "pool.ntp.org")
              (omega arith))
            (ground arith)
            λ sntp.
              bind-Settled nvs works
                (text_param-Reads nvs works true (codes "tzone") sntp_srv_len (codes "EET-2")
                  (omega arith))
                (ground arith)
                λ zone.
                  bind-Settled nvs works
                    (wifi_mode-Reads nvs works b.wmode_pin b.wtmp b.wifi_mode_ap) (ground arith)
                    λ mode.
                      bind-Settled nvs works
                        (text_param-Reads nvs works b.wifi_pin (codes "ssid") wifi_param_len
                          b.wifi_ssid s)
                        (ground arith)
                        λ ssid.
                          bind-Settled nvs works
                            (text_param-Reads nvs works b.wifi_pin (codes "key") wifi_param_len
                              b.wifi_pass p)
                            (ground arith)
                            λ pass.
                              bind-Settled nvs works
                                (param-Reads nvs works b.wifi_pin (codes "tport") (0 ∷ 0 ∷ [])
                                  tls_port_def refl)
                                (ground arith)
                                λ tls.
                                  bind-Settled nvs works
                                    (text_param-Reads nvs works true (codes "ftpip") ftp_pole_len
                                      (codes "192.168.0.101") (omega arith))
                                    (ground arith)
                                    λ addr.
                                      bind-Settled nvs works
                                        (param-Reads nvs works true (codes "ftpprt") ftp_port_def
                                          ftp_port_def refl)
                                        (ground arith)
                                        λ port.
                                          bind-Settled nvs works
                                            (text_param-Reads nvs works true (codes "test")
                                              ftp_pole_len (codes "test") (omega arith))
                                            (ground arith)
                                            λ login.
                                              bind-Settled nvs works
                                                (text_param-Reads nvs works true (codes "9999")
                                                  ftp_pole_len (codes "9999") (omega arith))
                                                (ground arith)
                                                λ passwd. pure-Settled nvs works (record {
                                                  cli_id = cli;
                                                  work_sntp = sntp;
                                                  time_zone = zone;
                                                  wmode = mode;
                                                  work_ssid = ssid;
                                                  work_pass = pass;
                                                  tls_port = tls;
                                                  ftp_srv_addr = addr;
                                                  ftp_srv_port = port;
                                                  ftp_srv_login = login;
                                                  ftp_srv_passwd = passwd;
                                                })

-- Whatever is in the flash and whichever pins are held: if the storage works and the names of the
-- build fit their buffers, then the next start with both pins released has the same eleven settings
-- and writes nothing.
pub read_settings-again :
    {F : Type 0} (nvs : Nvs F) (b : Build) (f : F)
    → Works nvs
    → length b.wifi_ssid ≤ wifi_param_len
    → length b.wifi_pass ≤ wifi_param_len
    → read_settings nvs (released b) (read_settings nvs b f).1 ≡ read_settings nvs b f
unfolding read_settings
read_settings-again nvs b f works s p =
    let e = read_settings nvs b f in
    (read_settings-Settled nvs works b s p).again f e.1 (Same-self nvs works names_read e.1)
