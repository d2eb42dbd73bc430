-- ===== src/Tests/Commands.antt =====
-- Commands of the server, their answers, and a message that is barred.
use esp_fmb.Prelude.{
  ltb, ◌==◌, ◌*◌, ◌%◌, ℕ, ◌≡◌, refl, true, false, Option, none, some, List, [], ◌∷◌, ◌++◌, length,
  get_elem?, arith, if◌then◌else◌,
}
use esp_fmb.Prelude.Int.{pos, negsuc}
use esp_fmb.Prelude.Words.{u32}
use esp_fmb.Prelude.Text.{codes, strstr}
use esp_fmb.Frame.{avl_frame, be32}
use esp_fmb.Timer.{get_tmr}
use esp_fmb.Mirror.{info_of}
use esp_fmb.Command.{
  Parsed, parse_cmd, dispatch, run_cmd, respond, Answer, answer_bytes, World, do_set_one,
}
use esp_fmb.Command.Words.{set_on, delrec, find_cmd}
use esp_fmb.Command.Switch.{relay_text, relay_after, timer_after, set_on-relay}
use esp_fmb.Command.Reply.{parse_cmd-length, answer_data, answer_bytes-frame, answer_bytes-timed}
use esp_fmb.Control.{Panel, Item, string, parser_json_str, strcmp_eq}
use esp_fmb.Control.Access.{knows, barred, let_in, parser_json_str-barred}
use esp_fmb.Tests.Device.{at_entry}

-- An answer with codec 12 and one with codec 13, over an older string in the buffer.
abbrev plain : Answer
plain = record { text = 79 ∷ 75 ∷ []; stale = []; cid = 12; device = at_entry 1 }

abbrev timed : Answer
timed = record {
  text = 79 ∷ 75 ∷ [];
  stale = 69 ∷ 114 ∷ 114 ∷ 111 ∷ [];
  cid = 13;
  device = at_entry 1;
}

answer_bytes-frame_example : answer_bytes 0 5 plain ≡ avl_frame (answer_data 12 5 2 (79 ∷ 75 ∷ []))
answer_bytes-frame_example = answer_bytes-frame 0 5 plain refl (omega arith, (omega arith, tt))

answer_bytes-timed_example :
    answer_bytes 1006 5 timed
    ≡ avl_frame (answer_data 13 5 6 (be32 (u32 1006) ++ (79 ∷ 75 ∷ 0 ∷ 111 ∷ 0 ∷ 0 ∷ [])))
answer_bytes-timed_example =
    answer_bytes-timed 1006 5 timed refl (omega arith, (omega arith, tt))
      (omega arith, (omega arith, (omega arith, (omega arith, tt))))

abbrev pub panel : Panel
panel = record {
  sntp_go = 0;
  work_sntp = codes "2.ru.pool.ntp.org";
  time_zone = codes "EET-2";
  clock = none;
  to_sd = false;
  ftp_go_flag = 0;
  ftp_srv_port = 9221;
  ftp_srv_addr = codes "10.100.0.101";
  ftp_srv_login = codes "login";
  ftp_srv_passwd = codes "passwd";
  saved = [];
}

-- {"restart":"on"}
abbrev pub restart_message : List ℕ → Option Item
restart_message name =
    if strcmp_eq name (codes "restart") then some (string (some (codes "\"on\""))) else none

parser_json_str-barred_example : parser_json_str (codes "5f4d") (some restart_message) 0 0 panel ≡ (
    if knows (codes "5f4d") restart_message
    then (let_in panel, pos 0)
    else (barred panel, negsuc 0))
parser_json_str-barred_example = parser_json_str-barred (codes "5f4d") restart_message panel

abbrev quiet_world : World
quiet_world = record { varta = λ k. 30; time = 1006; gps_text = λ m. codes "GPS:1" }

set_on-relay_example :
    let after =
      do_set_one set_on true quiet_world (codes "SET_ON 3 25") (relay_text 2 25) (at_entry 1) in
    (relay_after after 2
      ≡ (if 2 == 2 then some (record { stat = 1; time = 25 }) else get_elem? (at_entry 1).box 2))
    × (timer_after after 2 ≡ (
        if 2 == 2
        then some (if ltb 0 25 then get_tmr (quiet_world.varta 2) (25 * 10 % 4294967296) else 0)
        else get_elem? (at_entry 1).tmr_box 2))
set_on-relay_example =
    set_on-relay quiet_world (codes "SET_ON 3 25") (at_entry 1) 2 25 2 (omega arith) (omega arith)
      (omega arith) (omega arith)

-- The answer to "deleterecords".
abbrev deleted : Answer
deleted = record { text = codes "All Records Deleted"; stale = []; cid = 12; device = at_entry 1 }

abbrev deleted_answer : Parsed
deleted_answer =
    let d = at_entry 1 in
    record {
      out = answer_bytes 1006 5 deleted;
      ret = 39;
      cmd = some delrec;
      device = record d { gsm_info = info_of d.mirror.gsm };
    }

delrec_runs : parse_cmd quiet_world 5 (codes "deleterecords") (at_entry 1) ≡ some deleted_answer
unfolding parse_cmd dispatch find_cmd strstr run_cmd respond
delrec_runs = refl

parse_cmd-length_example : length deleted_answer.out ≡ 39
parse_cmd-length_example =
    parse_cmd-length quiet_world 5 (codes "deleterecords") (at_entry 1) deleted_answer delrec_runs
