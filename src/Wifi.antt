-- ===== src/Wifi.antt =====
-- `event_handler` of main/main.c: the events of the WiFi and of the address, and what other tasks see of
-- them. The four bytes of an address stand in the order of its dotted form.
pub mod Laws
use esp_fmb.Prelude.{ℕ, ◌+◌, Bool, true, false, List, [], ◌∷◌, ◌++◌, ltb, if◌then◌else◌}
use esp_fmb.Prelude.Text.{codes, print_u}

pub record Address : Type 0 where
  pub a : ℕ
  pub b : ℕ
  pub c : ℕ
  pub d : ℕ

pub data Event : Type 0 where
  sta_start sta_disconnected sta_connected other_event : Event
  sta_got_ip : Address → Event

-- `s_retry_num`, CONNECTED_BIT, `localip`, `bca`, and how often a connection was asked for.
pub record Wifi : Type 0 where
  pub s_retry_num : ℕ
  pub connected : Bool
  pub localip : List ℕ
  pub bca : Address
  pub connects : ℕ

abbrev pub maximum_retry : ℕ
maximum_retry = 3

abbrev pub dot : List ℕ → List ℕ
dot s = b'.' ∷ s

-- IPSTR.
unfoldable pub dotted : Address → List ℕ
dotted p = print_u p.a ++ dot (print_u p.b ++ dot (print_u p.c ++ dot (print_u p.d)))

abbrev pub broadcast : Address → Address
broadcast p = record p { d = 255 }

unfoldable pub event_handler : Event → Wifi → Wifi
event_handler sta_start w = record w { connects = w.connects + 1 }
event_handler sta_disconnected w =
    if ltb w.s_retry_num maximum_retry
    then record w { connects = w.connects + 1; connected = false }
    else w
event_handler sta_connected w = w
event_handler other_event w = w
event_handler (sta_got_ip p) w = record w {
  localip = dotted p;
  bca = broadcast p;
  s_retry_num = 0;
  connected = true;
}

unfoldable pub handle_all : List Event → Wifi → Wifi
handle_all [] w = w
handle_all (e ∷ es) w = handle_all es (event_handler e w)

abbrev pub no_address : Address
no_address = record { a = 0; b = 0; c = 0; d = 0 }

abbrev pub no_wifi : Wifi
no_wifi = record {
  s_retry_num = 0;
  connected = false;
  localip = [];
  bca = no_address;
  connects = 0;
}
