-- ===== src/Control/Serve/Kept.antt =====
-- The settings over the connections of the TLS server.
use esp_fmb.Prelude.{ℕ, zero, suc, Bool, true, false, Option, none, some, List, [], ◌∷◌, ◌&&◌, ◌==◌}
use esp_fmb.Control.{parser_json_str}
use esp_fmb.Settings.{Nvs}
use esp_fmb.Settings.Boot.Steps.{Works}
use esp_fmb.Control.Kept.{IsKept}
use esp_fmb.Control.Kept.Commands.{parser_json_str-IsKept}
use esp_fmb.Control.Serve.{
  Input, message, gone, timed_out, failed, Tls, Turn, stamp, welcome, longer, after_timeout,
  take_input, write_reply, if_input, turn, go_on, unless_stop, read_loop, Client, serve_client,
  unless_end, serve_clients, timeout_auth,
}

module _ {F : Type 0} (nvs : Nvs F) (works : Works nvs) (flash : F) where
  abbrev Fine : Tls → Type 0
  Fine s = IsKept nvs works flash s.panel

  stamp-Fine : (b : Bool) (hash : List ℕ) (s : Tls) → Fine s → Fine (stamp b hash s)
  stamp-Fine true hash s k = k
  stamp-Fine false hash s k = k

  longer-Fine : (n : ℕ) (s : Tls) → Fine s → Fine (longer n s)
  longer-Fine zero s k = k
  longer-Fine (suc n) s k = k

  after_timeout-Fine : (n : ℕ) (s : Tls) → Fine s → Fine (after_timeout n s).1
  after_timeout-Fine zero s k = k
  after_timeout-Fine (suc n) s k = k

  take_input-Fine : (i : Input) (s : Tls) → Fine s → Fine (take_input i s).1
  unfolding take_input
  take_input-Fine (message obj) s k =
      longer-Fine (parser_json_str s.hash_str obj s.auth 0 s.panel).0.au _
        (parser_json_str-IsKept nvs works flash s.hash_str obj s.auth 0 s.panel k)
  take_input-Fine gone s k = k
  take_input-Fine timed_out s k = after_timeout-Fine s.auth s k
  take_input-Fine failed s k = k

  write_reply-Fine : (o : Option ℕ) (s : Tls) → Fine s → Fine (write_reply o s)
  write_reply-Fine none s k = k
  write_reply-Fine (some cmd) s k = k

  if_input-Fine : (r : Bool × Tls) (b : Bool) → Fine r.1 → Fine (if_input r b).1
  if_input-Fine (false, s) b k = k
  if_input-Fine (true, s) true k = k
  if_input-Fine (true, s) false k = write_reply-Fine s.ictrl s k

  turn-Fine : (hash : List ℕ) (t : Turn) (s : Tls) → Fine s → Fine (turn hash t s).1
  unfolding turn
  turn-Fine hash t s k =
      if_input-Fine (take_input t.input (welcome hash s)) t.restart_flag
        (take_input-Fine t.input (welcome hash s) (stamp-Fine ((s.auth == 0) && s.first) hash s k))

  go_on-Fine :
      (r : Bool × Tls) (more : Tls → Tls) → Fine r.1 → Fine (more r.1) → Fine (go_on r more)
  go_on-Fine (true, s) more h k = k
  go_on-Fine (false, s) more h k = h

  unless_stop-Fine : (b : Bool) (s t : Tls) → Fine s → Fine t → Fine (unless_stop b s t)
  unless_stop-Fine true s t h k = h
  unless_stop-Fine false s t h k = k

  read_loop-Fine : (hash : List ℕ) (ts : List Turn) (s : Tls) → Fine s → Fine (read_loop hash ts s)
  unfolding read_loop
  read_loop-Fine hash [] s k = k
  read_loop-Fine hash (t ∷ ts) s k =
      let r = turn hash t s in
      let h = turn-Fine hash t s k in
      unless_stop-Fine t.stop s (go_on r (read_loop hash ts)) k
        (go_on-Fine r (read_loop hash ts) h (read_loop-Fine hash ts r.1 h))

  unless_end-Fine : (b : Bool) (s t : Tls) → Fine s → Fine t → Fine (unless_end b s t)
  unless_end-Fine true s t h k = k
  unless_end-Fine false s t h k = h

  serve_client-Fine : (c : Client) (s : Tls) → Fine s → Fine (serve_client c s)
  unfolding serve_client
  serve_client-Fine c s k = read_loop-Fine c.hash c.turns (record s { first = true }) k

  serve_all-Fine : (cs : List Client) (s : Tls) → Fine s → Fine (serve_clients cs s)
  unfolding serve_clients
  serve_all-Fine [] s k = k
  serve_all-Fine (c ∷ cs) s k =
      let e = serve_client c s in
      let h = serve_client-Fine c s k in
      unless_end-Fine (e.eot == 0) e (serve_clients cs (record e { timeout = timeout_auth })) h
        (serve_all-Fine cs (record e { timeout = timeout_auth }) h)

-- With a storage that works: when the flash holds the six settings that the commands change as the
-- variables hold them, it does so after any clients with any messages, let in or not; so the next
-- start reads what the variables hold.
pub serve_clients-IsKept :
    {F : Type 0} (nvs : Nvs F) (works : Works nvs) (flash : F) (cs : List Client) (s : Tls)
    → IsKept nvs works flash s.panel
    → IsKept nvs works flash (serve_clients cs s).panel
serve_clients-IsKept nvs works flash cs s k = serve_all-Fine nvs works flash cs s k
