-- ===== src/Control/Access.antt =====
-- Who may change what through `parser_json_str`.
use esp_fmb.Prelude.{
  ℕ, zero, suc, ◌+◌, ◌*◌, ◌≡◌, refl, ap, ap₂, ◌∙◌, Bool, true, false, Option, none, some, List, [],
  ◌∷◌, inl, inr, Bool-cases, Option-cases, if◌then◌else◌,
}
use esp_fmb.Prelude.Int.{ℤ, pos, negsuc}
use esp_fmb.Control.{
  Ctrl, auth, udp, sntp, sntp_srv, time_zone, restart, time, ftp_go, ftp_srv, ftp_user, get, Item,
  number, string, other, Panel, Scan, strcmp_eq, get_json_str, control, handle, scan_names,
  parser_json_str, ctrl_name,
}
use esp_fmb.Prelude.Text.{codes}

-- The loop for a client that has not been let in, before anything has happened.
abbrev pub barred : Panel → Scan
barred p = record { au = 0; rst = 0; yes = false; subc = 0; panel = p }

-- The state once the hash was given.
abbrev pub let_in : Panel → Scan
let_in p = record { au = 1; rst = 0; yes = true; subc = 0; panel = p }

-- The hash is the value of the item "auth".
abbrev pub knows : List ℕ → (List ℕ → Option Item) → Bool
knows str_md5 obj = elim (obj (codes "auth")) [
  | none ↦ false
  | some item ↦ elim item [
    | number n ↦ false
    | string printed ↦ elim printed [ none ↦ false | some st ↦ strcmp_eq (get_json_str st) str_md5 ]
    | other ↦ false
  ]
]

is_auth : Ctrl → Bool
is_auth auth = true
is_auth c = false

control-barred :
    (str_md5 : List ℕ) (c : Ctrl) (val : Option (List ℕ)) (val_bin : ℤ) (p : Panel)
    → is_auth c ≡ false
    → (control str_md5 c val val_bin (barred p)).0 ≡ barred p
unfolding control is_auth
control-barred str_md5 auth val val_bin p ne = cc ne
control-barred str_md5 udp val val_bin p ne = refl
control-barred str_md5 sntp none val_bin p ne = refl
control-barred str_md5 sntp (some v) val_bin p ne = refl
control-barred str_md5 sntp_srv none val_bin p ne = refl
control-barred str_md5 sntp_srv (some v) val_bin p ne = refl
control-barred str_md5 time_zone none val_bin p ne = refl
control-barred str_md5 time_zone (some v) val_bin p ne = refl
control-barred str_md5 restart none val_bin p ne = refl
control-barred str_md5 restart (some v) val_bin p ne = refl
control-barred str_md5 time val val_bin p ne = refl
control-barred str_md5 ftp_go none val_bin p ne = refl
control-barred str_md5 ftp_go (some v) val_bin p ne = refl
control-barred str_md5 ftp_srv none val_bin p ne = refl
control-barred str_md5 ftp_srv (some v) val_bin p ne = refl
control-barred str_md5 ftp_user none val_bin p ne = refl
control-barred str_md5 ftp_user (some v) val_bin p ne = refl
control-barred str_md5 get none val_bin p ne = refl
control-barred str_md5 get (some v) val_bin p ne = refl

handle-barred :
    (str_md5 : List ℕ) (c : Ctrl) (item : Item) (p : Panel)
    → is_auth c ≡ false
    → (handle str_md5 c item (barred p)).0 ≡ barred p
unfolding handle
handle-barred str_md5 c (number (pos n)) p ne = control-barred str_md5 c none (pos n) p ne
handle-barred str_md5 c (number (negsuc zero)) p ne = refl
handle-barred str_md5 c (number (negsuc (suc n))) p ne = control-barred str_md5 c none _ p ne
handle-barred str_md5 c (string none) p ne = refl
handle-barred str_md5 c (string (some st)) p ne = control-barred str_md5 c _ _ p ne
handle-barred str_md5 c other p ne = refl

-- No command of the list is "auth".
NoAuth : List (Ctrl × ℕ × List ℕ) → Type 0
NoAuth [] = Unit
NoAuth ((c, i, name) ∷ names) = (is_auth c ≡ false) × NoAuth names

module _ (str_md5 : List ℕ) (obj : List ℕ → Option Item) (c : Ctrl) (i : ℕ) (name : List ℕ)
    (names : List (Ctrl × ℕ × List ℕ)) (ind_c : ℕ) (s : Scan) where
  scan-missing :
      obj name ≡ none
      → scan_names str_md5 obj ((c, i, name) ∷ names) ind_c s ≡ scan_names str_md5 obj names ind_c s
  unfolding scan_names
  scan-missing e = rw (scan_names, e) refl

  scan-found :
      (item : Item) (s' : Scan) (done : Bool)
      → obj name ≡ some item
      → handle str_md5 c item s ≡ (s', done)
      → scan_names str_md5 obj ((c, i, name) ∷ names) ind_c s
        ≡ (if done then (s', i) else scan_names str_md5 obj names i s')
  unfolding scan_names
  scan-found item s' done e h = rw (scan_names, e, h) refl

scan-nil :
    (str_md5 : List ℕ) (obj : List ℕ → Option Item) (ind_c : ℕ) (s : Scan)
    → (scan_names str_md5 obj [] ind_c s).0 ≡ s
unfolding scan_names
scan-nil str_md5 obj ind_c s = refl

scan_names-barred :
    (str_md5 : List ℕ) (obj : List ℕ → Option Item) (names : List (Ctrl × ℕ × List ℕ)) (ind_c : ℕ)
    (p : Panel)
    → NoAuth names
    → (scan_names str_md5 obj names ind_c (barred p)).0 ≡ barred p
unfolding NoAuth
scan_names-barred str_md5 obj [] ind_c p h = scan-nil str_md5 obj ind_c (barred p)
scan_names-barred str_md5 obj ((c, i, name) ∷ names) ind_c p h = elim (Option-cases (obj name)) [
  | inl e ↦
      rw (scan-missing str_md5 obj c i name names ind_c (barred p) e)
        (scan_names-barred str_md5 obj names ind_c p h.1)
  | inr (item, e) ↦ elim (Bool-cases (handle str_md5 c item (barred p)).1) [
    | inl done ↦ rw (found item true e done) refl
    | inr more ↦ rw (found item false e more) (scan_names-barred str_md5 obj names i p h.1)
  ]
]
  where
    found :
        (item : Item) (done : Bool)
        → obj name ≡ some item
        → (handle str_md5 c item (barred p)).1 ≡ done
        → scan_names str_md5 obj ((c, i, name) ∷ names) ind_c (barred p)
          ≡ (if done then (barred p, i) else scan_names str_md5 obj names i (barred p))
    found item done e d =
        scan-found str_md5 obj c i name names ind_c (barred p) item (barred p) done e
          (ap₂ (λ (x : Scan) (y : Bool). (x, y)) (handle-barred str_md5 c item p h.0) d)

-- The commands behind "auth".
abbrev others : List (Ctrl × ℕ × List ℕ)
others = elim ctrl_name [ [] ↦ [] | c ∷ cs ↦ cs ]

others-NoAuth : NoAuth others
unfolding NoAuth is_auth
others-NoAuth = (refl, (refl, (refl, (refl, (refl, (refl, (refl, (refl, (refl, (refl, tt))))))))))

-- What the result is made of.
abbrev pub outcome : Scan × ℕ → Scan × ℤ
outcome (s, ind_c) = (s, (if s.yes then pos (ind_c + s.subc * 65536) else negsuc 0))

outcome-barred : (r : Scan × ℕ) (p : Panel) → r.0 ≡ barred p → outcome r ≡ (barred p, negsuc 0)
outcome-barred r p e = rw e refl

parser-outcome :
    (str_md5 : List ℕ) (obj : List ℕ → Option Item) (p : Panel)
    → parser_json_str str_md5 (some obj) 0 0 p
      ≡ outcome (scan_names str_md5 obj ((auth, 0, codes "auth") ∷ others) 255 (barred p))
unfolding parser_json_str
parser-outcome str_md5 obj p = refl

module _ (str_md5 : List ℕ) (obj : List ℕ → Option Item) (p : Panel) where
  rest-barred :
      (ind_c : ℕ) → outcome (scan_names str_md5 obj others ind_c (barred p)) ≡ (barred p, negsuc 0)
  rest-barred ind_c =
      outcome-barred (scan_names str_md5 obj others ind_c (barred p)) p
        (scan_names-barred str_md5 obj others ind_c p others-NoAuth)

  ignored :
      (item : Item)
      → obj (codes "auth") ≡ some item
      → handle str_md5 auth item (barred p) ≡ (barred p, false)
      → parser_json_str str_md5 (some obj) 0 0 p ≡ (barred p, negsuc 0)
  ignored item e h =
      parser-outcome str_md5 obj p
      ∙ ap outcome (
          scan-found str_md5 obj auth 0 (codes "auth") others 255 (barred p) item (barred p) false e
            h)
      ∙ rest-barred 0

  compared :
      (st : List ℕ) (eq : Bool)
      → obj (codes "auth") ≡ some (string (some st))
      → strcmp_eq (get_json_str st) str_md5 ≡ eq
      → parser_json_str str_md5 (some obj) 0 0 p
        ≡ (if eq then (let_in p, pos 0) else (barred p, negsuc 0))
  unfolding handle control
  compared st true e eq =
      parser-outcome str_md5 obj p
      ∙ ap outcome (
          scan-found str_md5 obj auth 0 (codes "auth") others 255 (barred p) (string (some st))
            (let_in p) true e (rw eq refl))
  compared st false e eq =
      parser-outcome str_md5 obj p
      ∙ ap outcome (
          scan-found str_md5 obj auth 0 (codes "auth") others 255 (barred p) (string (some st))
            (barred p) true e (rw eq refl))

-- A message of a client that is not let in: if it gives the hash the client is let in and nothing
-- else happens, whatever else it asks; if not, nothing happens at all and the result is -1.
pub parser_json_str-barred :
    (str_md5 : List ℕ) (obj : List ℕ → Option Item) (p : Panel)
    → parser_json_str str_md5 (some obj) 0 0 p
      ≡ (if knows str_md5 obj then (let_in p, pos 0) else (barred p, negsuc 0))
unfolding handle control
parser_json_str-barred str_md5 obj p = elim (Option-cases (obj (codes "auth"))) [
  | inl e ↦
      rw (knows, e)
        (parser-outcome str_md5 obj p
          ∙ ap outcome (scan-missing str_md5 obj auth 0 (codes "auth") others 255 (barred p) e)
          ∙ rest-barred str_md5 obj p 255)
  | inr (number (pos n), e) ↦ rw (knows, e) (ignored str_md5 obj p _ e refl)
  | inr (number (negsuc zero), e) ↦ rw (knows, e) (ignored str_md5 obj p _ e refl)
  | inr (number (negsuc (suc n)), e) ↦ rw (knows, e) (ignored str_md5 obj p _ e refl)
  | inr (string none, e) ↦ rw (knows, e) (ignored str_md5 obj p _ e refl)
  | inr (string (some st), e) ↦ rw (knows, e) (compared str_md5 obj p st _ e refl)
  | inr (other, e) ↦ rw (knows, e) (ignored str_md5 obj p _ e refl)
]
