-- ===== src/Wifi/Laws.antt =====
-- What a history of events leaves.
use esp_fmb.Prelude.{
  ℕ, ◌+◌, ◌≡◌, refl, ap, ◌∙◌, Bool, true, false, List, [], ◌∷◌, arith, ltb, if◌then◌else◌,
}
use esp_fmb.Wifi.{
  Event, sta_start, sta_disconnected, sta_connected, other_event, sta_got_ip, Wifi, dotted,
  event_handler, handle_all, no_wifi, maximum_retry,
}

-- The device is on line when the last of its addresses came behind the last disconnection.
abbrev pub on_line : Bool → List Event → Bool
on_line b [] = b
on_line b (sta_start ∷ es) = on_line b es
on_line b (sta_disconnected ∷ es) = on_line false es
on_line b (sta_connected ∷ es) = on_line b es
on_line b (other_event ∷ es) = on_line b es
on_line b (sta_got_ip p ∷ es) = on_line true es

-- The last address, as text.
abbrev pub last_ip : List ℕ → List Event → List ℕ
last_ip s [] = s
last_ip s (sta_start ∷ es) = last_ip s es
last_ip s (sta_disconnected ∷ es) = last_ip s es
last_ip s (sta_connected ∷ es) = last_ip s es
last_ip s (other_event ∷ es) = last_ip s es
last_ip s (sta_got_ip p ∷ es) = last_ip (dotted p) es

-- The starts and the disconnections.
abbrev pub calls : List Event → ℕ
calls [] = 0
calls (sta_start ∷ es) = calls es + 1
calls (sta_disconnected ∷ es) = calls es + 1
calls (sta_connected ∷ es) = calls es
calls (other_event ∷ es) = calls es
calls (sta_got_ip p ∷ es) = calls es

handle_all-history :
    (es : List Event) (w : Wifi)
    → w.s_retry_num ≡ 0
    → (handle_all es w).connected ≡ on_line w.connected es
      × ((handle_all es w).localip ≡ last_ip w.localip es)
      × ((handle_all es w).connects ≡ w.connects + calls es)
unfolding handle_all event_handler
handle_all-history [] w h = (refl, refl, omega arith)
handle_all-history (sta_start ∷ es) w h =
    let r = handle_all-history es (record w { connects = w.connects + 1 }) h in
    (r.0, r.1, omega (arith, r.2))
handle_all-history (sta_connected ∷ es) w h =
    let r = handle_all-history es (w) h in (r.0, r.1, omega (arith, r.2))
handle_all-history (other_event ∷ es) w h =
    let r = handle_all-history es (w) h in (r.0, r.1, omega (arith, r.2))
handle_all-history (sta_disconnected ∷ es) w h =
    let v = record w { connects = w.connects + 1; connected = false } in
    let e : event_handler sta_disconnected w ≡ v =
      ap (λ n. if ltb n maximum_retry then v else w) h in
    let r = handle_all-history es v h in
    (
      ap (λ x. (handle_all es x).connected) e ∙ r.0,
      ap (λ x. (handle_all es x).localip) e ∙ r.1,
      ap (λ x. (handle_all es x).connects) e ∙ omega (arith, r.2),
    )
handle_all-history (sta_got_ip p ∷ es) w h =
    handle_all-history es (event_handler (sta_got_ip p) w) refl

-- After any history of events, the device counts as on line exactly when an address came behind the
-- last disconnection; it shows the last address; and it has asked for a connection once for every
-- start and every disconnection, without end.
pub handle_all-no_wifi :
    (es : List Event)
    → ((handle_all es no_wifi).connected ≡ on_line false es)
      × ((handle_all es no_wifi).localip ≡ last_ip [] es)
      × ((handle_all es no_wifi).connects ≡ calls es)
handle_all-no_wifi es = let r = handle_all-history es no_wifi refl in (r.0, r.1, omega (arith, r.2))
