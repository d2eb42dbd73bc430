-- ===== src/Tests/Parts.antt =====
-- Checksums, timers, scenarios, the reported state, the display and the configuration at work.
use esp_fmb.Prelude.{
  map, ◌-◌, ◌*◌, ℕ, ◌+◌, ◌≤◌, ◌≡◌, ◌≢◌, Option, some, List, [], ◌∷◌, length, get_elem?, arith, leb,
  if◌then◌else◌,
}
use esp_fmb.Prelude.Int.{pos}
use esp_fmb.Prelude.Words.{u8, htonl, htons, be16_at, be32_at}
use esp_fmb.Prelude.Text.{codes}
use esp_fmb.Crc.{ksum}
use esp_fmb.Crc.Reference.{crc16, ksum-eq-crc16}
use esp_fmb.Crc.Detect.{ksum_one_byte}
use esp_fmb.Timer.{check_tmr, get_tmr, ticks, check_tmr-get_tmr}
use esp_fmb.Scenario.{north_west, no_records, add_all, get_ones}
use esp_fmb.Scenario.Laws.{get_ones-add_all}
use esp_fmb.Mirror.{mir_bytes}
use esp_fmb.Mirror.Laws.{mir_bytes_position}
use esp_fmb.Display.{ssd1306_calcx, ssd1306_text_xy, sla_write, cmd_stream, ranges}
use esp_fmb.Display.Layout.{glyph, columns, text_xy-calcx}
use esp_fmb.Config.{parse_entry, entry_of, is_still, Cfg, no_conf}
use esp_fmb.Config.Entries.{entry_text, parse_entry-text}
use esp_fmb.Tests.Device.{route, at_entry}

ksum-eq-crc16_example : ksum (8 ∷ 1 ∷ 200 ∷ 0 ∷ []) 3 ≡ crc16 0 (8 ∷ 1 ∷ 200 ∷ [])
ksum-eq-crc16_example =
    ksum-eq-crc16 (8 ∷ 1 ∷ 200 ∷ 0 ∷ []) 3
      (omega arith, (omega arith, (omega arith, (omega arith, tt)))) (omega arith)

ksum_one_byte_example : ksum (8 ∷ 7 ∷ 1 ∷ []) 3 ≢ ksum (8 ∷ 9 ∷ 1 ∷ []) 3
ksum_one_byte_example =
    ksum_one_byte (8 ∷ []) (1 ∷ []) 7 9 (omega arith, tt) (omega arith, tt) (omega arith)
      (omega arith) (omega arith)

check_tmr-get_tmr_example : check_tmr (ticks 30 100) (get_tmr 100 25) ≡ leb 25 30
check_tmr-get_tmr_example = check_tmr-get_tmr 100 25 30 (omega arith) (omega arith)

get_ones-add_all_example : get_ones (pos 2) (add_all route no_records) ≡ get_elem? route 1
get_ones-add_all_example = get_ones-add_all route 1 (omega arith)

mir_bytes_position_example :
    let m = (at_entry 1).mirror in
    (be32_at (mir_bytes m) 9 ≡ htonl m.gsm.longitude)
    × (be32_at (mir_bytes m) 13 ≡ htonl m.gsm.latitude)
    × (be16_at (mir_bytes m) 17 ≡ htons m.gsm.altitude)
    × (be16_at (mir_bytes m) 19 ≡ htons m.gsm.angle)
    × (be16_at (mir_bytes m) 22 ≡ htons m.gsm.speed)
mir_bytes_position_example = mir_bytes_position (at_entry 1).mirror

text_xy-calcx_example :
    let margin = 8 * (ssd1306_calcx (length (codes "GPS")) - 1) in
    (ssd1306_text_xy (codes "GPS") (ssd1306_calcx (length (codes "GPS"))) 5
      ≡ some ((sla_write ∷ cmd_stream ∷ ranges margin (u8 (5 + 255))) ∷ map glyph (codes "GPS")))
    × (margin + columns (map glyph (codes "GPS")) ≤ 128)
    × (128 - (margin + columns (map glyph (codes "GPS"))) ≤ margin + 8)
    × (margin ≤ 128 - (margin + columns (map glyph (codes "GPS"))))
text_xy-calcx_example = text_xy-calcx (codes "GPS") 5 (omega arith) (omega arith) (omega arith)

parse_entry-text_example :
    parse_entry (entry_text north_west 150 4)
    ≡ entry_of (record {
      dir = north_west;
      delta = if is_still north_west then pos 0 else pos 150;
      kols = pos 4;
    })
parse_entry-text_example = parse_entry-text north_west 150 4 (omega arith) (omega arith)

abbrev config_lines : List (List ℕ)
config_lines = codes ";a comment\n" ∷ codes "mode=1\n" ∷ codes "#Stop:30\n" ∷ []

abbrev start_cfg : Option Cfg
start_cfg = some (record { cnf = no_conf; cnt = 0; records = no_records })
