-- ===== src/Control/Kept/Commands.antt =====
-- A message changes the settings in the variables and in the flash alike.
use esp_fmb.Prelude.{
  ℕ, zero, suc, refl, Bool, true, false, not, ◌&&◌, Option, none, some, List, [], ◌∷◌, ◌==◌, ltb,
  length, take, length-take, inl, inr, Bool-cases, arith, if◌then◌else◌,
}
use esp_fmb.Prelude.Int.{ℤ, pos, negsuc}
use esp_fmb.Prelude.Text.{codes, strchr, atoi}
use esp_fmb.Settings.{Nvs}
use esp_fmb.Settings.Boot.Steps.{Works}
use esp_fmb.Control.{
  Ctrl, auth, udp, sntp, sntp_srv, time_zone, restart, time, ftp_go, ftp_srv, ftp_user, get, Item,
  number, string, other, Panel, Scan, strcmp_eq, get_json_str, control, handle, scan_names,
  parser_json_str, ctrl_name, set_sntp, set_sntp_srv, set_time_zone, set_ftp_go, srv_parts,
  set_ftp_srv, set_ftp_user, set_time, ask, accept, save, with_string, sub_index, sub_ctrl_name,
  check_auth, do_restart,
}
use esp_fmb.Control.Kept.{
  IsKept, server-IsKept, zone-IsKept, address-IsKept, login-IsKept, passwd-IsKept, port-IsKept,
  if-IsKept, idle-IsKept, go-IsKept,
}

module _ {F : Type 0} (nvs : Nvs F) (works : Works nvs) (flash : F) where
  set_sntp_srv-IsKept :
      (val : List ℕ) (s : Scan)
      → IsKept nvs works flash s.panel
      → IsKept nvs works flash (set_sntp_srv val s).panel
  set_sntp_srv-IsKept val s k =
      server-IsKept nvs works flash (take 31 val) (record s.panel { sntp_go = 1 })
        (omega (arith, length-take 31 val)) (go-IsKept nvs works flash s.panel k)

  set_time_zone-IsKept :
      (val : List ℕ) (s : Scan)
      → IsKept nvs works flash s.panel
      → IsKept nvs works flash (set_time_zone val s).panel
  set_time_zone-IsKept val s k =
      elim (Bool-cases
        (not (strcmp_eq val s.panel.time_zone) && (ltb (length val) 32 && ltb 0 (length val)))) [
          | inl h ↦ rw h (
              zone-IsKept nvs works flash val (record s.panel { sntp_go = 1 }) (ground (arith, h))
                (go-IsKept nvs works flash s.panel k))
          | inr h ↦ rw h k
        ]

  set_ftp_srv-IsKept :
      (val : List ℕ) (s : Scan)
      → IsKept nvs works flash s.panel
      → IsKept nvs works flash (set_ftp_srv val s).panel
  set_ftp_srv-IsKept val s k =
      let addr = take 16 (srv_parts val).0 in
      let p = save "ftpip" 16 addr (record s.panel { ftp_srv_addr = addr }) in
      if-IsKept nvs works flash (ltb 0 (length val)) _ s
        (port-IsKept nvs works flash (srv_parts val).1 p (
          address-IsKept nvs works flash addr s.panel
            (omega (arith, length-take 16 (srv_parts val).0)) k))
        k

  user_parts :
      (o : Option (List ℕ × List ℕ)) (val : List ℕ) (s : Scan)
      → IsKept nvs works flash s.panel
      → IsKept nvs works flash
          (elim o as (λ _. Scan) [
            | none ↦ s
            | some (user, pass) ↦
                let p = s.panel in
                let p' = record p { ftp_srv_login = take 16 val; ftp_srv_passwd = take 16 pass } in
                accept (save "9999" 16 (take 16 pass) (save "test" 16 (take 16 val) p')) s
          ]).panel
  user_parts none val s k = k
  user_parts (some (user, pass)) val s k =
      passwd-IsKept nvs works flash (take 16 pass)
        (save "test" 16 (take 16 val) (record s.panel { ftp_srv_login = take 16 val }))
        (omega (arith, length-take 16 pass))
        (login-IsKept nvs works flash (take 16 val) s.panel (omega (arith, length-take 16 val)) k)

  set_ftp_user-IsKept :
      (val : List ℕ) (s : Scan)
      → IsKept nvs works flash s.panel
      → IsKept nvs works flash (set_ftp_user val s).panel
  set_ftp_user-IsKept val s k = user_parts (strchr val b':') val s k

  set_sntp-IsKept :
      (val : List ℕ) (s : Scan)
      → IsKept nvs works flash s.panel
      → IsKept nvs works flash (set_sntp val s).panel
  set_sntp-IsKept val s k =
      if-IsKept nvs works flash (strcmp_eq val (codes "on")) _ s
        (go-IsKept nvs works flash s.panel k) k

  to_volume :
      (p : Panel) (b : Bool)
      → IsKept nvs works flash p
      → IsKept nvs works flash (record p { to_sd = b; ftp_go_flag = 1 })
  to_volume p b k =
      idle-IsKept nvs works flash p (record p { to_sd = b; ftp_go_flag = 1 }) refl
        (λ x. ground arith) k

  set_ftp_go-IsKept :
      (val : List ℕ) (s : Scan)
      → IsKept nvs works flash s.panel
      → IsKept nvs works flash (set_ftp_go val s).panel
  set_ftp_go-IsKept val s k =
      if-IsKept nvs works flash (strcmp_eq val (codes "flash")) _ _ (to_volume s.panel false k)
        (if-IsKept nvs works flash (strcmp_eq val (codes "card")) _ s (to_volume s.panel true k) k)

  clock_at :
      (z : ℤ) (s : Scan)
      → IsKept nvs works flash s.panel
      → IsKept nvs works flash
          (elim z as (λ _. Scan) [
            | pos zero ↦ s
            | pos (suc n) ↦ accept (record s.panel { clock = some (pos (suc n)) }) s
            | negsuc n ↦ s
          ]).panel
  clock_at (pos zero) s k = k
  clock_at (pos (suc n)) s k =
      idle-IsKept nvs works flash s.panel (record s.panel { clock = some (pos (suc n)) }) refl
        (λ x. ground arith) k
  clock_at (negsuc n) s k = k

  set_time-IsKept :
      (val : Option (List ℕ)) (n : ℤ) (s : Scan)
      → IsKept nvs works flash s.panel
      → IsKept nvs works flash (set_time val n s).panel
  set_time-IsKept val n s k = clock_at (elim val as (λ _. ℤ) [ none ↦ n | some v ↦ atoi v ]) s k

  asked :
      (o : Option ℕ) (s : Scan)
      → IsKept nvs works flash s.panel
      → IsKept nvs works flash
          (elim o as (λ _. Scan) [ none ↦ s | some n ↦ record s { yes = true; subc = n } ]).panel
  asked none s k = k
  asked (some n) s k = k

  ask-IsKept :
      (val : List ℕ) (s : Scan)
      → IsKept nvs works flash s.panel
      → IsKept nvs works flash (ask val s).panel
  ask-IsKept val s k = asked (sub_index 0 sub_ctrl_name val) s k

  with_string-IsKept :
      (body : List ℕ → Scan → Scan) (val : Option (List ℕ)) (s : Scan)
      → ((v : List ℕ) (t : Scan)
          → IsKept nvs works flash t.panel
          → IsKept nvs works flash (body v t).panel)
      → IsKept nvs works flash s.panel
      → IsKept nvs works flash (with_string body val s).0.panel
  with_string-IsKept body none s b k = k
  with_string-IsKept body (some val) s b k =
      if-IsKept nvs works flash (s.au == 0) s (body val s) k (b val s k)

  check_auth-IsKept :
      (str_md5 : List ℕ) (val : Option (List ℕ)) (s : Scan)
      → IsKept nvs works flash s.panel
      → IsKept nvs works flash (check_auth str_md5 val s).0.panel
  check_auth-IsKept str_md5 none s k = k
  check_auth-IsKept str_md5 (some val) s k =
      if-IsKept nvs works flash (strcmp_eq val str_md5) _ s k k

  do_restart-IsKept :
      (val : Option (List ℕ)) (s : Scan)
      → IsKept nvs works flash s.panel
      → IsKept nvs works flash (do_restart val s).0.panel
  do_restart-IsKept none s k = k
  do_restart-IsKept (some val) s k =
      if-IsKept nvs works flash (not (s.au == 0) && strcmp_eq val (codes "on")) _ _ k k

  control-IsKept :
      (str_md5 : List ℕ) (c : Ctrl) (val : Option (List ℕ)) (n : ℤ) (s : Scan)
      → IsKept nvs works flash s.panel
      → IsKept nvs works flash (control str_md5 c val n s).0.panel
  unfolding control
  control-IsKept str_md5 auth val n s k = check_auth-IsKept str_md5 val s k
  control-IsKept str_md5 udp val n s k = k
  control-IsKept str_md5 sntp val n s k = with_string-IsKept set_sntp val s set_sntp-IsKept k
  control-IsKept str_md5 sntp_srv val n s k =
      with_string-IsKept set_sntp_srv val s set_sntp_srv-IsKept k
  control-IsKept str_md5 time_zone val n s k =
      with_string-IsKept set_time_zone val s set_time_zone-IsKept k
  control-IsKept str_md5 restart val n s k = do_restart-IsKept val s k
  control-IsKept str_md5 time val n s k =
      if-IsKept nvs works flash (s.au == 0) s (set_time val n s) k (set_time-IsKept val n s k)
  control-IsKept str_md5 ftp_go val n s k = with_string-IsKept set_ftp_go val s set_ftp_go-IsKept k
  control-IsKept str_md5 ftp_srv val n s k =
      let r = (with_string set_ftp_srv val s).0 in
      let h = with_string-IsKept set_ftp_srv val s set_ftp_srv-IsKept k in
      if-IsKept nvs works flash (r.au == 0) (record r { yes = false }) r h h
  control-IsKept str_md5 ftp_user val n s k =
      let r = (with_string set_ftp_user val s).0 in
      let h = with_string-IsKept set_ftp_user val s set_ftp_user-IsKept k in
      if-IsKept nvs works flash (r.au == 0) (record r { yes = false }) r h h
  control-IsKept str_md5 get val n s k = with_string-IsKept ask val s ask-IsKept k

  handle-IsKept :
      (str_md5 : List ℕ) (c : Ctrl) (i : Item) (s : Scan)
      → IsKept nvs works flash s.panel
      → IsKept nvs works flash (handle str_md5 c i s).0.panel
  unfolding handle
  handle-IsKept str_md5 c (number (pos n)) s k = control-IsKept str_md5 c none (pos n) s k
  handle-IsKept str_md5 c (number (negsuc zero)) s k = k
  handle-IsKept str_md5 c (number (negsuc (suc n))) s k =
      control-IsKept str_md5 c none (negsuc (suc n)) s k
  handle-IsKept str_md5 c (string none) s k = k
  handle-IsKept str_md5 c (string (some printed)) s k =
      control-IsKept str_md5 c (some (get_json_str printed)) (negsuc 0) s k
  handle-IsKept str_md5 c other s k = k

  if_done :
      (b : Bool) (r t : Scan × ℕ)
      → IsKept nvs works flash r.0.panel
      → IsKept nvs works flash t.0.panel
      → IsKept nvs works flash (if b then r else t).0.panel
  if_done true r t h k = h
  if_done false r t h k = k

  found :
      (o : Option Item) (none_found : Scan × ℕ) (read : Item → Scan × Bool) (more : Scan → Scan × ℕ)
      (i : ℕ)
      → IsKept nvs works flash none_found.0.panel
      → ((item : Item) → IsKept nvs works flash (read item).0.panel)
      → ((item : Item) → IsKept nvs works flash (more (read item).0).0.panel)
      → IsKept nvs works flash
          (elim o as (λ _. Scan × ℕ) [
            | none ↦ none_found
            | some item ↦ if (read item).1 then ((read item).0, i) else more (read item).0
          ]).0.panel
  found none r read more i h a b = h
  found (some item) r read more i h a b =
      if_done (read item).1 ((read item).0, i) (more (read item).0) (a item) (b item)

  scan_names-IsKept :
      (str_md5 : List ℕ) (obj : List ℕ → Option Item) (names : List (Ctrl × ℕ × List ℕ)) (ind_c : ℕ)
      (s : Scan)
      → IsKept nvs works flash s.panel
      → IsKept nvs works flash (scan_names str_md5 obj names ind_c s).0.panel
  unfolding scan_names
  scan_names-IsKept str_md5 obj [] ind_c s k = k
  scan_names-IsKept str_md5 obj ((c, i, name) ∷ names) ind_c s k =
      found (obj name) (scan_names str_md5 obj names ind_c s) (λ item. handle str_md5 c item s)
        (scan_names str_md5 obj names i) i (scan_names-IsKept str_md5 obj names ind_c s k)
        (λ item. handle-IsKept str_md5 c item s k)
        (λ item.
          scan_names-IsKept str_md5 obj names i (handle str_md5 c item s).0
            (handle-IsKept str_md5 c item s k))

  pub parser_json_str-IsKept :
      (str_md5 : List ℕ) (obj : Option (List ℕ → Option Item)) (au rst : ℕ) (p : Panel)
      → IsKept nvs works flash p
      → IsKept nvs works flash (parser_json_str str_md5 obj au rst p).0.panel
  unfolding parser_json_str
  parser_json_str-IsKept str_md5 none au rst p k = k
  parser_json_str-IsKept str_md5 (some items) au rst p k =
      scan_names-IsKept str_md5 items ctrl_name 255
        (record { au = au; rst = rst; yes = false; subc = 0; panel = p }) k
