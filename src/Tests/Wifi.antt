-- ===== src/Tests/Wifi.antt =====
-- A connection that is lost and found again.
use esp_fmb.Prelude.{◌≡◌, false, [], ◌∷◌}
use esp_fmb.Wifi.{Address, Event, sta_start, sta_disconnected, sta_got_ip, handle_all, no_wifi}
use esp_fmb.Wifi.Laws.{on_line, last_ip, calls, handle_all-no_wifi}
use mathlib.Core.List.{List}

abbrev home : Address
home = record { a = 192; b = 168; c = 0; d = 7 }

abbrev history : List Event
history = sta_start ∷ sta_got_ip home ∷ sta_disconnected ∷ sta_got_ip home ∷ []

handle_all-no_wifi_example :
    ((handle_all history no_wifi).connected ≡ on_line false history)
    × ((handle_all history no_wifi).localip ≡ last_ip [] history)
    × ((handle_all history no_wifi).connects ≡ calls history)
handle_all-no_wifi_example = handle_all-no_wifi history
