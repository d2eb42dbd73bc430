-- ===== src/Command/Words.antt =====
-- The commands, their words and the prepared answers: `cmds_t`, `cmds` and `acks` of
-- main/fmb630.h and main/fmb630.c, and the search at the head of `parse_cmd`.
use esp_fmb.Prelude.{ℕ, Option, none, some, List, [], ◌∷◌, length, drop}
use esp_fmb.Prelude.Text.{codes, strstr}

-- `cmds_t`.
pub data Cmd : Type 0 where
  getgps delrec getver getio set_all get_stat setdigout1 setdigout0 do_report set_on set_off
        cpureset :
      Cmd

-- The words of the commands, in the order in which they are looked for.
abbrev pub cmds : List (Cmd × List ℕ)
cmds =
    (getgps, codes "getgps")
    ∷ (delrec, codes "deleterecords")
    ∷ (getver, codes "getver")
    ∷ (getio, codes "getio")
    ∷ (set_all, codes "SET_ALL")
    ∷ (get_stat, codes "GET_STAT")
    ∷ (setdigout1, codes "setdigout")
    ∷ (setdigout0, codes "setdigout")
    ∷ (do_report, codes "#DO REPORT")
    ∷ (set_on, codes "SET_ON")
    ∷ (set_off, codes "SET_OFF")
    ∷ (cpureset, codes "cpureset")
    ∷ []

-- The first command whose word stands in the text, with the text behind that word.
unfoldable pub find_cmd : List (Cmd × List ℕ) → List ℕ → Option (Cmd × List ℕ)
find_cmd [] line = none
find_cmd ((c, word) ∷ rest) line = elim (strstr line word) [
  | none ↦ find_cmd rest line
  | some found ↦ some (c, drop (length word) found)
]

abbrev pub acks : Cmd → List ℕ
acks getgps = codes "Error command getgps"
acks delrec = codes "All Records Deleted"
acks getver =
    codes
      "Code Ver:00.02.87 Device IMEI:352094087260177 Device ID:000014 BL Ver:06.45 Modem Ver:Teltonika TM25Q TM25Q_R_01.00.00.00_001, 2016/12/20 12:46 Hw:K-Line TM25Q "
acks getio = codes "DI1:1 DI2:0 DI3:0 DI4:0 AIN1:0 AIN2:0 AIN3:0 DO1:0 DO2:0 DO3:0 DO4:0"
acks set_all = codes "Error command SET_ALL"
acks get_stat = codes "Error command GET_STAT"
acks setdigout1 = codes "DOUTS are set to: 1XXX TMOs are: 0 0 0 0"
acks setdigout0 = codes "DOUTS are set to: 0XXX TMOs are: 0 0 0 0"
acks do_report = codes "#OK"
acks set_on = codes "Error command SET_ON"
acks set_off = codes "Error command SET_OFF"
acks cpureset = codes "restart now"
