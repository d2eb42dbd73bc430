-- ===== src/Tests/Answers.antt =====
-- The hash of a start, and an answer with the names of the WiFi.
use esp_fmb.Prelude.{
  ℕ, ◌<◌, ◌≡◌, refl, arith, true, Option, some, none, List, ◌∷◌, length, replicate,
}
use esp_fmb.Prelude.Text.{codes}
use esp_fmb.Mirror.{init_mirror, info_of, mirror}
use esp_fmb.Control.Serve.{part}
use esp_fmb.Control.Answer.{Figures, instr, hash_input, mk_hash, reply_text}
use esp_fmb.Control.Answer.Hash.{unhex, mk_hash-unhex}
use esp_fmb.Control.Answer.Bounds.{Fits, room, reply_text-lt}

-- Stands for MD5.
abbrev digest : List ℕ → List ℕ
digest s = 171 ∷ 5 ∷ replicate 14 240

mk_hash-unhex_example :
    (length (mk_hash digest true 1700000000 instr).0 ≡ 32)
    × (unhex (mk_hash digest true 1700000000 instr).0
        ≡ digest (hash_input instr (mk_hash digest true 1700000000 instr).1))
mk_hash-unhex_example = mk_hash-unhex digest 1700000000 instr (omega arith) refl

abbrev nothing_stored : List ℕ → ℕ → Option (List ℕ)
nothing_stored name len = none

abbrev figures : Figures
figures = record {
  ts = 1700000000;
  cli_id = 305419896;
  time = 1700000009;
  free_mem = 180000;
  vcc = codes "3.300";
  temp = codes "53.33";
  stored = nothing_stored;
  stale = replicate 64 0;
  net_log_port = 8008;
  version = codes "4.2";
  gps_srv = codes "92.53.65.4";
  gps_port = 9900;
  lat = codes "55.80389404";
  long = codes "37.40301514";
  gsm = info_of (init_mirror none none mirror).gsm;
}

figures_fit : Fits figures
unfolding init_mirror mirror
figures_fit = record {
  ts_lt = omega arith;
  time_lt = omega arith;
  free_mem_lt = omega arith;
  vcc_le = omega arith;
  temp_le = omega arith;
  lat_le = omega arith;
  long_le = omega arith;
  version_le = omega arith;
  gps_srv_le = omega arith;
  net_log_port_lt = omega arith;
  gps_port_lt = omega arith;
  sattelites_lt = omega arith;
  stale_eq = refl;
  stored_le = λ name len blob h. cc h;
}

reply_text-lt_example : length (reply_text figures (part (some 9))) < room (part (some 9))
reply_text-lt_example = reply_text-lt figures (part (some 9)) figures_fit
