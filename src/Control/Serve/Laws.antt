-- ===== src/Control/Serve/Laws.antt =====
-- What clients get and do that do not know the hash.
use esp_fmb.Prelude.{
  ℕ, zero, suc, ◌≡◌, refl, sym, ap, ap₂, ◌∙◌, subst, Bool, true, false, ◌&&◌, Option, none, some,
  List, [], ◌∷◌, ◌==◌, ◌⊎◌, inl, inr, arith, if◌then◌else◌,
}
use esp_fmb.Prelude.Int.{ℤ, pos, negsuc}
use esp_fmb.Control.{Item, Panel, Scan, parser_json_str}
use esp_fmb.Control.Access.{knows, barred, let_in, parser_json_str-barred}
use esp_fmb.Control.Serve.{
  Reply, time_stamp, refusal, Input, message, gone, timed_out, failed, Tls, Turn, stamp, welcome,
  obeyed, after_timeout, take_input, reply_for, write_reply, if_input, turn, go_on, unless_stop,
  read_loop, Client, serve_client, unless_end, serve_clients, timeout_auth,
}

-- The second list is the first with time stamps and refusals before it.
pub data Shown : List Reply → List Reply → Type 0 where
  same : (l : List Reply) → Shown l l
  stamped : (l m : List Reply) → Shown l m → Shown l (time_stamp ∷ m)
  refused : (l m : List Reply) → Shown l m → Shown l (refusal ∷ m)

-- No message gives the hash.
abbrev pub IsStrange : List ℕ → Input → Type 0
IsStrange hash (message none) = Unit
IsStrange hash (message (some obj)) = knows hash obj ≡ false
IsStrange hash gone = Unit
IsStrange hash timed_out = Unit
IsStrange hash failed = Unit

abbrev pub StrangeTurns : List ℕ → List Turn → Type 0
StrangeTurns hash [] = Unit
StrangeTurns hash (t ∷ ts) = IsStrange hash t.input × StrangeTurns hash ts

abbrev pub Strangers : List Client → Type 0
Strangers [] = Unit
Strangers (c ∷ cs) = StrangeTurns c.hash c.turns × Strangers cs

module _ (p : Panel) (old : List Reply) where
  -- Nobody is let in, the settings are as they were, and nothing is told.
  abbrev pub Barred : Tls → Type 0
  Barred s = (s.auth ≡ 0) × (s.panel ≡ p) × Shown old s.sent

  abbrev Known : List ℕ → Tls → Type 0
  Known hash s = Barred s × (s.hash_str ≡ hash)

  stamp-Known :
      (b : Bool) (hash : List ℕ) (s : Tls)
      → Barred s
      → ((b ≡ true) ⊎ (s.hash_str ≡ hash))
      → Known hash (stamp b hash s)
  stamp-Known true hash s (a, q, sh) k = ((a, q, stamped old s.sent sh), refl)
  stamp-Known false hash s h (inl e) = cc e
  stamp-Known false hash s h (inr e) = (h, e)

  welcome-Known :
      (hash : List ℕ) (s : Tls)
      → Barred s
      → ((s.first ≡ true) ⊎ (s.hash_str ≡ hash))
      → Known hash (welcome hash s)
  welcome-Known hash s h (inl f) =
      let e : (s.auth == 0) ≡ true = ground (arith, h.0) in
      stamp-Known ((s.auth == 0) && s.first) hash s h (inl (ap₂ (λ a b. a && b) e f))
  welcome-Known hash s h (inr f) = stamp-Known ((s.auth == 0) && s.first) hash s h (inr f)

  -- A message that is ignored.
  obeyed-Known :
      (hash : List ℕ) (r : Scan × ℤ) (s : Tls)
      → r ≡ (barred p, negsuc 0)
      → Known hash s
      → Known hash (obeyed r s)
  obeyed-Known hash r s e ((a, q, sh), k) =
      subst (λ z. Known hash (obeyed z s)) (sym e) ((refl, refl, sh), k)

  ignored :
      (hash : List ℕ) (obj : List ℕ → Option Item)
      → knows hash obj ≡ false
      → parser_json_str hash (some obj) 0 0 p ≡ (barred p, negsuc 0)
  ignored hash obj h =
      parser_json_str-barred hash obj p
      ∙ ap (λ b. if b then (let_in p, pos 0) else (barred p, negsuc 0)) h

  unparsed : (hash : List ℕ) → parser_json_str hash none 0 0 p ≡ (barred p, negsuc 0)
  unfolding parser_json_str
  unparsed hash = refl

  parsed :
      (hash : List ℕ) (obj : Option (List ℕ → Option Item)) (s : Tls)
      → Known hash s
      → parser_json_str hash obj 0 0 p ≡ (barred p, negsuc 0)
      → Known hash (obeyed (parser_json_str s.hash_str obj s.auth 0 s.panel) s)
  parsed hash obj s k e =
      obeyed-Known hash (parser_json_str s.hash_str obj s.auth 0 s.panel) s
        (ap₂ (λ h a. parser_json_str h obj a 0 s.panel) k.1 k.0.0
          ∙ ap (λ q. parser_json_str hash obj 0 0 q) k.0.1
          ∙ e)
        k

  after_timeout-Known :
      (a : ℕ) (hash : List ℕ) (s : Tls) → Known hash s → Known hash (after_timeout a s).1
  after_timeout-Known zero hash s k = k
  after_timeout-Known (suc n) hash s k = k

  take_input-Known :
      (hash : List ℕ) (i : Input) (s : Tls)
      → IsStrange hash i
      → Known hash s
      → Known hash (take_input i s).1
  unfolding take_input
  take_input-Known hash (message none) s h k = parsed hash none s k (unparsed hash)
  take_input-Known hash (message (some obj)) s h k = parsed hash (some obj) s k (ignored hash obj h)
  take_input-Known hash gone s h k = k
  take_input-Known hash timed_out s h k = after_timeout-Known s.auth hash s k
  take_input-Known hash failed s h k = k

  write_reply-Known :
      (o : Option ℕ) (hash : List ℕ) (s : Tls) → Known hash s → Known hash (write_reply o s)
  write_reply-Known none hash s k = k
  write_reply-Known (some cmd) hash s ((a, q, sh), k) = (
    (
      a,
      q,
      subst (λ n. Shown old (reply_for n cmd s.sctrl ∷ s.sent)) (sym a) (refused old s.sent sh),
    ),
    k,
  )

  if_input-Known :
      (b r : Bool) (hash : List ℕ) (s : Tls) → Known hash s → Known hash (if_input (b, s) r).1
  if_input-Known false r hash s k = k
  if_input-Known true true hash s k = k
  if_input-Known true false hash s k = write_reply-Known s.ictrl hash s k

  turn-Known :
      (hash : List ℕ) (t : Turn) (s : Tls)
      → IsStrange hash t.input
      → Barred s
      → ((s.first ≡ true) ⊎ (s.hash_str ≡ hash))
      → Known hash (turn hash t s).1
  unfolding turn
  turn-Known hash t s h b f =
      let r = take_input t.input (welcome hash s) in
      if_input-Known r.0 t.restart_flag hash r.1
        (take_input-Known hash t.input (welcome hash s) h (welcome-Known hash s b f))

  unless_stop-Barred : (b : Bool) (s r : Tls) → Barred s → Barred r → Barred (unless_stop b s r)
  unless_stop-Barred true s r h k = h
  unless_stop-Barred false s r h k = k

  go_on-Barred :
      (r : Bool × Tls) (more : Tls → Tls) → Barred r.1 → Barred (more r.1) → Barred (go_on r more)
  go_on-Barred (true, s) more h k = k
  go_on-Barred (false, s) more h k = h

  read_loop-Barred :
      (hash : List ℕ) (ts : List Turn) (s : Tls)
      → StrangeTurns hash ts
      → Barred s
      → ((s.first ≡ true) ⊎ (s.hash_str ≡ hash))
      → Barred (read_loop hash ts s)
  unfolding read_loop
  read_loop-Barred hash [] s h b f = b
  read_loop-Barred hash (t ∷ ts) s h b f =
      let r = turn hash t s in
      let k = turn-Known hash t s h.0 b f in
      unless_stop-Barred t.stop s (go_on r (read_loop hash ts)) b
        (go_on-Barred r (read_loop hash ts) k.0 (read_loop-Barred hash ts r.1 h.1 k.0 (inr k.1)))

  serve_client-Barred :
      (c : Client) (s : Tls) → StrangeTurns c.hash c.turns → Barred s → Barred (serve_client c s)
  unfolding serve_client
  serve_client-Barred c s h b =
      let r = read_loop-Barred c.hash c.turns (record s { first = true }) h b (inl refl) in
      (refl, r.1, r.2)

  unless_end-Barred : (b : Bool) (s r : Tls) → Barred s → Barred r → Barred (unless_end b s r)
  unless_end-Barred true s r h k = k
  unless_end-Barred false s r h k = h

  serve_all-Barred :
      (cs : List Client) (s : Tls) → Strangers cs → Barred s → Barred (serve_clients cs s)
  unfolding serve_clients
  serve_all-Barred [] s h b = b
  serve_all-Barred (c ∷ cs) s h b =
      let e = serve_client c s in
      let k = serve_client-Barred c s h.0 b in
      unless_end-Barred (e.eot == 0) e (serve_clients cs (record e { timeout = timeout_auth })) k
        (serve_all-Barred cs (record e { timeout = timeout_auth }) h.1 k)

-- However many clients come, one after another, and whatever they send: as long as no message gives the
-- hash of its connection, nobody is let in, no setting is changed, and time stamps and refusals are
-- all that is written.
pub serve_clients-Barred :
    (cs : List Client) (s : Tls)
    → Strangers cs
    → s.auth ≡ 0
    → Barred s.panel s.sent (serve_clients cs s)
serve_clients-Barred cs s h a = serve_all-Barred s.panel s.sent cs s h (a, refl, same s.sent)
