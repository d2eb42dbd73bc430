-- ===== src/Control/Kept.antt =====
-- The settings that the commands of the TLS server change, in the variables and in the flash.
pub mod Commands
use esp_fmb.Prelude.{
  ℕ, zero, suc, ◌+◌, ◌*◌, ◌/◌, ◌%◌, ◌≤◌, ◌<◌, ◌≡◌, refl, sym, ap, ◌∙◌, subst, Bool, true, false,
  not, ◌&&◌, Option, none, some, List, [], ◌∷◌, ◌==◌, ltb, length, take, length-take, replicate,
  length-replicate, ◌⊎◌, inl, inr, Bool-cases, arith, if◌then◌else◌,
}
use esp_fmb.Prelude.Int.{ℤ, pos, negsuc, wrap}
use esp_fmb.Prelude.Text.{codes, strchr, atoi}
use esp_fmb.Settings.{Nvs, read_param, save_param, cleared}
use esp_fmb.Settings.Laws.{length-overlay}
use esp_fmb.Settings.Boot.Steps.{Works, saved, untouched}
use esp_fmb.Control.{
  Ctrl, auth, udp, sntp, sntp_srv, time_zone, restart, time, ftp_go, ftp_srv, ftp_user, get, Item,
  number, string, other, Panel, Scan, strcmp_eq, get_json_str, control, handle, scan_names,
  parser_json_str, ctrl_name, set_sntp, set_sntp_srv, set_time_zone, set_ftp_go, srv_parts,
  set_ftp_srv, set_ftp_user, set_time, ask, accept, save, with_string, sub_index, sub_ctrl_name,
  check_auth, do_restart, deny,
}

-- The settings, their names in the flash, and the bytes of their variables.
pub data Setting : Type 0 where
  server zone address port login passwd : Setting

abbrev pub name_of : Setting → List ℕ
name_of server = codes "sntp"
name_of zone = codes "tzone"
name_of address = codes "ftpip"
name_of port = codes "ftpprt"
name_of login = codes "test"
name_of passwd = codes "9999"

abbrev pub value_of : Setting → Panel → List ℕ
value_of server p = cleared 32 p.work_sntp
value_of zone p = cleared 32 p.time_zone
value_of address p = cleared 16 p.ftp_srv_addr
value_of port p = cleared 2 (p.ftp_srv_port % 256 ∷ p.ftp_srv_port / 256 ∷ [])
value_of login p = cleared 16 p.ftp_srv_login
value_of passwd p = cleared 16 p.ftp_srv_passwd

abbrev pub len_of : Setting → ℕ
len_of server = 32
len_of zone = 32
len_of address = 16
len_of port = 2
len_of login = 16
len_of passwd = 16

abbrev same : Setting → Setting → Bool
same y x = strcmp_eq (name_of y) (name_of x)

same-eq : (y x : Setting) → same y x ≡ true → x ≡ y
same-eq y x h = ground arith

module _ {F : Type 0} (nvs : Nvs F) (works : Works nvs) (flash : F) where
  -- The flash behind the saves, the last of which stands first.
  abbrev pub replay : List (List ℕ × List ℕ) → F
  replay [] = flash
  replay ((name, blob) ∷ l) = (save_param nvs name blob (replay l)).1

  -- What `read_param` gives for every such setting is what the variable holds.
  abbrev pub IsKept : Panel → Type 0
  IsKept p =
      (x : Setting) → read_param nvs (name_of x) (len_of x) (replay p.saved) ≡ some (value_of x p)

  save-IsKept :
      (y : Setting) (p q : Panel)
      → q.saved ≡ (name_of y, value_of y q) ∷ p.saved
      → length (value_of y q) ≡ len_of y
      → ((x : Setting) → same y x ≡ false → value_of x q ≡ value_of x p)
      → IsKept p
      → IsKept q
  save-IsKept y p q e n o k x =
      ap (λ l. read_param nvs (name_of x) (len_of x) (replay l)) e ∙ elim (Bool-cases (same y x)) [
        | inl h ↦
            subst
              (λ z.
                read_param nvs (name_of z) (len_of z) (replay ((name_of y, value_of y q) ∷ p.saved))
                ≡ some (value_of z q))
              (sym (same-eq y x h))
              (saved nvs works (name_of y) (value_of y q) (len_of y) (replay p.saved) n)
        | inr h ↦
            untouched nvs works (name_of x) (name_of y) (value_of y q) (len_of x) (replay p.saved) h
            ∙ k x
            ∙ ap (λ v. some v) (sym (o x h))
      ]

  pub server-IsKept :
      (text : List ℕ) (p : Panel)
      → length text ≤ 32
      → IsKept p
      → IsKept (save "sntp" 32 text (record p { work_sntp = text }))
  server-IsKept text p h k =
      save-IsKept server p (save "sntp" 32 text (record p { work_sntp = text })) refl
        (length-overlay text 32 h) (λ x e. ground (arith, e)) k

  pub zone-IsKept :
      (text : List ℕ) (p : Panel)
      → length text ≤ 32
      → IsKept p
      → IsKept (save "tzone" 32 text (record p { time_zone = text }))
  zone-IsKept text p h k =
      save-IsKept zone p (save "tzone" 32 text (record p { time_zone = text })) refl
        (length-overlay text 32 h) (λ x e. ground (arith, e)) k

  pub address-IsKept :
      (text : List ℕ) (p : Panel)
      → length text ≤ 16
      → IsKept p
      → IsKept (save "ftpip" 16 text (record p { ftp_srv_addr = text }))
  address-IsKept text p h k =
      save-IsKept address p (save "ftpip" 16 text (record p { ftp_srv_addr = text })) refl
        (length-overlay text 16 h) (λ x e. ground (arith, e)) k

  pub login-IsKept :
      (text : List ℕ) (p : Panel)
      → length text ≤ 16
      → IsKept p
      → IsKept (save "test" 16 text (record p { ftp_srv_login = text }))
  login-IsKept text p h k =
      save-IsKept login p (save "test" 16 text (record p { ftp_srv_login = text })) refl
        (length-overlay text 16 h) (λ x e. ground (arith, e)) k

  pub passwd-IsKept :
      (text : List ℕ) (p : Panel)
      → length text ≤ 16
      → IsKept p
      → IsKept (save "9999" 16 text (record p { ftp_srv_passwd = text }))
  passwd-IsKept text p h k =
      save-IsKept passwd p (save "9999" 16 text (record p { ftp_srv_passwd = text })) refl
        (length-overlay text 16 h) (λ x e. ground (arith, e)) k

  pub port-IsKept :
      (n : ℕ) (p : Panel)
      → IsKept p
      → IsKept (save "ftpprt" 2 (n % 256 ∷ n / 256 ∷ []) (record p { ftp_srv_port = n }))
  port-IsKept n p k =
      save-IsKept port p (save "ftpprt" 2 (n % 256 ∷ n / 256 ∷ []) (record p { ftp_srv_port = n }))
        refl refl (λ x e. ground (arith, e)) k

  pub if-IsKept :
      (b : Bool) (s t : Scan) → IsKept s.panel → IsKept t.panel → IsKept (if b then s else t).panel
  if-IsKept true s t h k = h
  if-IsKept false s t h k = k

  -- Where neither a setting nor the flash changes.
  pub idle-IsKept :
      (p q : Panel)
      → q.saved ≡ p.saved
      → ((x : Setting) → value_of x q ≡ value_of x p)
      → IsKept p
      → IsKept q
  idle-IsKept p q e v k x =
      ap (λ l. read_param nvs (name_of x) (len_of x) (replay l)) e
      ∙ k x
      ∙ ap (λ b. some b) (sym (v x))

  pub go-IsKept : (p : Panel) → IsKept p → IsKept (record p { sntp_go = 1 })
  go-IsKept p k = idle-IsKept p (record p { sntp_go = 1 }) refl (λ x. ground arith) k
