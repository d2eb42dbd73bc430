-- ===== src/Control/Answer/Bounds.antt =====
-- The answers fit the buffer `tbuf`.
use esp_fmb.Prelude.{
  ℕ, ◌+◌, ◌-◌, ◌/◌, ◌%◌, ◌^◌, ◌<◌, ◌≤◌, ◌≡◌, refl, Bool, true, false, Option, none, some, List, [],
  ◌∷◌, ◌++◌, ◌==◌, length, length-append, length-drop, length-replicate, overlay, replicate, drop,
  arith, if◌then◌else◌,
}
use esp_fmb.Prelude.Text.{codes, strchr, cut_at, print_u}
use esp_fmb.Prelude.Text.Decimal.{print_u-length}
use esp_fmb.Prelude.Words.{htons, htons-lt}
use esp_fmb.Control.Serve.{Reply, time_stamp, status, refusal, part}
use esp_fmb.Control.Answer.{
  Figures, quoted, key, or_none, param_text, port_of, head_text, short_text, gps_text, sub_text,
  part_text, join, reply_text, end_oj,
}
use esp_fmb.Control.Answer.Hash.{length-hex}

-- What is printed has the sizes that its types and buffers allow.
pub record Fits (i : Figures) : Type 0 where
  pub ts_lt : i.ts < 4294967296
  pub time_lt : i.time < 4294967296
  pub free_mem_lt : i.free_mem < 4294967296
  pub vcc_le : length i.vcc ≤ 50
  pub temp_le : length i.temp ≤ 50
  pub lat_le : length i.lat ≤ 50
  pub long_le : length i.long ≤ 50
  pub version_le : length i.version ≤ 100
  pub gps_srv_le : length i.gps_srv ≤ 255
  pub net_log_port_lt : i.net_log_port < 65536
  pub gps_port_lt : i.gps_port < 65536
  pub sattelites_lt : i.gsm.sattelites < 256
  pub stale_eq : length i.stale ≡ 64
  pub stored_le :
      (name : List ℕ) (len : ℕ) (blob : List ℕ) → i.stored name len ≡ some blob → length blob ≤ len

cut_at-le : (s : List ℕ) → length (cut_at 0 s).0 ≤ length s
unfolding cut_at strchr
cut_at-le [] = omega arith
cut_at-le (x ∷ s) = ground (arith, cut_at-le s)

overlay-le : (new old : List ℕ) → length new ≤ length old → length (overlay new old) ≤ length old
overlay-le new old h =
    omega (arith, length-append new (drop (length new) old), length-drop (length new) old)

or_none-le :
    (old : List ℕ) (o : Option (List ℕ)) (k : ℕ)
    → length old ≡ 64
    → k ≤ 64
    → ((blob : List ℕ) → o ≡ some blob → length blob ≤ k)
    → length (or_none old o) ≤ 64
or_none-le old none k e l h = omega arith
or_none-le old (some blob) k e l h =
    omega (arith, cut_at-le (overlay blob old), overlay-le blob old, h blob refl)

u32-length : (n : ℕ) → n < 4294967296 → length (print_u n) ≤ 10
u32-length n h = print_u-length n 9 (omega arith)

u16-length : (n : ℕ) → n < 65536 → length (print_u n) ≤ 5
u16-length n h = print_u-length n 4 (omega arith)

if_le :
    (b : Bool) (x y : List (List ℕ)) (k : ℕ)
    → length (join x) ≤ k
    → length (join y) ≤ k
    → length (join (if b then x else y)) ≤ k
if_le true x y k h l = h
if_le false x y k h l = l

-- The lengths of the pieces together.
abbrev total : List (List ℕ) → ℕ
total [] = 0
total (s ∷ ss) = length s + total ss

length-join : (ss : List (List ℕ)) → length (join ss) ≡ total ss
length-join [] = refl
length-join (s ∷ ss) = omega (arith, length-append s (join ss), length-join ss)

abbrev n_bytes : ℕ → List ℕ
n_bytes n = n / 2 ^ 24 % 256 ∷ n / 2 ^ 16 % 256 ∷ n / 2 ^ 8 % 256 ∷ n % 256 ∷ []

length-quoted : (s : List ℕ) → length (quoted s) ≡ length s + 2
length-quoted s = omega (arith, length-append s (codes "\""))

length-pair : (s t : List ℕ) → length (quoted (s ++ b':' ∷ t)) ≡ length s + length t + 3
length-pair s t = omega (arith, length-quoted (s ++ b':' ∷ t), length-append s (b':' ∷ t))

module _ (i : Figures) (f : Fits i) where
  param_text-le : (name : List ℕ) (len : ℕ) → len ≤ 64 → length (param_text i name len) ≤ 64
  param_text-le name len h =
      or_none-le (replicate 64 0) (i.stored name len) len (length-replicate {A = ℕ} 64 0) h
        (f.stored_le name len)

  two_bytes : (o : Option (List ℕ)) → port_of o < 65536
  two_bytes none = omega arith
  two_bytes (some blob) = omega arith

  short_text-le : (n : ℕ) → n < 65536 → length (short_text n) ≤ 6
  short_text-le n h = ground (arith, print_u-length (65536 - n) 4, print_u-length n 4)

  head_text-le : length (join (head_text i)) ≤ 200
  head_text-le = omega (
    arith,
    length-join (head_text i),
    length-hex (n_bytes i.cli_id),
    u32-length i.time f.time_lt,
    u32-length i.free_mem f.free_mem_lt,
    f.vcc_le,
    f.temp_le,
  )

  gps_text-le : length (join (gps_text i)) ≤ 200
  gps_text-le = omega (
    arith,
    length-join (gps_text i),
    f.lat_le,
    f.long_le,
    short_text-le (htons i.gsm.altitude) (htons-lt i.gsm.altitude),
    u16-length (htons i.gsm.angle) (htons-lt i.gsm.angle),
    u16-length i.gsm.sattelites (omega (arith, f.sattelites_lt)),
    u16-length (htons i.gsm.speed) (htons-lt i.gsm.speed),
  )

  join-key :
      (n : ℕ) (s : List ℕ) (k : ℕ)
      → length (key n) ≤ 20
      → length s ≤ k
      → length (join (key n ∷ s ∷ [])) ≤ 20 + k
  join-key n s k h l = omega (arith, length-join (key n ∷ s ∷ []))

  join-quoted :
      (n : ℕ) (s : List ℕ)
      → length (key n) ≤ 20
      → length s ≤ 255
      → length (join (key n ∷ quoted s ∷ [])) ≤ 400
  join-quoted n s h l = omega (arith, join-key n (quoted s) 257 h (omega (arith, length-quoted s)))

  join-pair :
      (n : ℕ) (s t : List ℕ)
      → length (key n) ≤ 20
      → length s ≤ 255
      → length t ≤ 64
      → length (join (key n ∷ quoted (s ++ b':' ∷ t) ∷ [])) ≤ 400
  join-pair n s t h l k =
      omega (arith, join-key n (quoted (s ++ b':' ∷ t)) 322 h (omega (arith, length-pair s t)))

  sub_text-le : (n : ℕ) → length (join (sub_text i n)) ≤ 400
  sub_text-le n =
      let le = λ (name : List ℕ) (len : ℕ) (h : len ≤ 64). param_text-le name len h in
      let zone : length (or_none i.stale (i.stored (codes "tzone") 32)) ≤ 64 =
        or_none-le i.stale (i.stored (codes "tzone") 32) 32 f.stale_eq (omega arith)
          (f.stored_le (codes "tzone") 32) in
      let port = port_of (i.stored (codes "ftpprt") 2) in
      if_le (n == 1) _ _ 400
        (join-pair 1 (param_text i (codes "ssid") 32) (param_text i (codes "key") 32) (omega arith)
          (omega (arith, le (codes "ssid") 32 (omega arith))) (le (codes "key") 32 (omega arith)))
        (if_le (n == 2) _ _ 400
          (join-quoted 2 (param_text i (codes "sntp") 32) (omega arith)
            (omega (arith, le (codes "sntp") 32 (omega arith))))
          (if_le (n == 3) _ _ 400
            (join-quoted 3 (or_none i.stale (i.stored (codes "tzone") 32)) (omega arith)
              (omega (arith, zone)))
            (if_le (n == 4) _ _ 400
              (join-pair 4 (param_text i (codes "ftpip") 16) (print_u port) (omega arith)
                (omega (arith, le (codes "ftpip") 16 (omega arith)))
                (omega (arith, u16-length port (two_bytes (i.stored (codes "ftpprt") 2)))))
              (if_le (n == 5) _ _ 400
                (join-pair 5 (param_text i (codes "test") 16) (param_text i (codes "9999") 16)
                  (omega arith) (omega (arith, le (codes "test") 16 (omega arith)))
                  (le (codes "9999") 16 (omega arith)))
                (if_le (n == 6) _ _ 400
                  (omega (
                    arith,
                    join-key 6 (print_u i.net_log_port) 5 (omega arith)
                        (u16-length i.net_log_port f.net_log_port_lt),
                  ))
                  (if_le (n == 7) _ _ 400
                    (join-quoted 7 i.version (omega arith) (omega (arith, f.version_le)))
                    (if_le (n == 8) _ _ 400
                      (join-pair 8 i.gps_srv (print_u i.gps_port) (omega arith) f.gps_srv_le
                        (omega (arith, u16-length i.gps_port f.gps_port_lt)))
                      (if_le (n == 9) _ _ 400
                        (omega (arith, length-append (key 9) (join (gps_text i)), gps_text-le))
                        (omega arith)))))))))

  part_text-le : (o : Option ℕ) → length (join (part_text i o)) ≤ 400
  part_text-le none = omega arith
  part_text-le (some n) = sub_text-le n

-- The buffers `ts` and `tbuf`.
abbrev pub room : Reply → ℕ
room time_stamp = 64
room status = 1024
room (part sub) = 1024
room refusal = 1024

-- When what is printed has the sizes of its types and buffers, every answer fits its buffer with its
-- terminator.
pub reply_text-lt : (i : Figures) (r : Reply) → Fits i → length (reply_text i r) < room r
unfolding reply_text
reply_text-lt i time_stamp f = omega (
  arith,
  length-append (codes "{\"ts\":") (print_u i.ts ++ end_oj),
  length-append (print_u i.ts) end_oj,
  u32-length i.ts f.ts_lt,
)
reply_text-lt i status f =
    omega (arith, length-append (join (head_text i)) end_oj, head_text-le i f)
reply_text-lt i (part sub) f = omega (
  arith,
  length-append (join (head_text i)) (join (part_text i sub) ++ end_oj),
  length-append (join (part_text i sub)) end_oj,
  head_text-le i f,
  part_text-le i f sub,
)
reply_text-lt i refusal f = omega arith
