-- ===== src/Ftp/Access/Owns.antt =====
-- A data connection in passive mode takes one socket and its memory, and gives them back.
use esp_fmb.Prelude.{
  ℕ, suc, ◌≡◌, refl, ap, ◌∙◌, Bool, true, false, not, ◌||◌, get_or, Option, none, some, List, ◌∷◌,
  ◌==◌, inl, inr, Bool-cases, arith,
}
use esp_fmb.Prelude.Text.{codes, strchr, cut_at}
use esp_fmb.Ftp.Buf.{Dir, NetBuf, Ctl}
use esp_fmb.Ftp.Reply.{send_command}
use esp_fmb.Ftp.Reply.Kept.{Same, Kept, read_response-Kept, send_command-Kept}
use esp_fmb.Ftp.World.{World, ask, socket, if_opened, closesocket, if_allocated, free, on_ctl}
use esp_fmb.Ftp.Port.{
  Opened, with_buffer, with_netbuf, made_buf, ascii, image, if_ascii, if_connected, dial, if_socket,
  passive_address, connect_to, if_pasv, open_passive, open_port, by_mode, checked, is_data,
}
use esp_fmb.Ftp.Access.{if_buffer, last_reply, close_data}
use esp_fmb.Ftp.World.Owns.{
  closesocket-last, closesocket-live, Owns, buffers, Holding, Ends, ask-elim, peer-sockets,
  peer-live, closed-Owns,
}

with_buffer-Holding :
    (k : Ctl) (socks : List ℕ) (live h : ℕ) (dir : Dir) (c : Ctl) (a : Bool) (l : List Bool)
    (w : World)
    → Owns k (h ∷ socks) (suc live) c w
    → Ends (Holding k socks live) (with_buffer h dir c (if_allocated (a, record w { answers = l })))
with_buffer-Holding k socks live h dir c true l w o =
    let v : World = record w { answers = l; live = suc w.live } in
    (o.0, peer-sockets v ∙ o.1, peer-live v ∙ ap suc o.2)
with_buffer-Holding k socks live h dir c false l w o =
    let v : World = record w { answers = l } in
    (o.0, closesocket-last h v socks o.1, omega (arith, closesocket-live h v, o.2))

if_ascii-Holding :
    (k : Ctl) (socks : List ℕ) (live h : ℕ) (t : Bool) (dir : Dir) (c : Ctl) (w : World)
    → Owns k (h ∷ socks) (suc live) c w
    → Ends (Holding k socks live) (if_ascii t h dir c w)
if_ascii-Holding k socks live h true dir c w o =
    ask-elim w (λ r. Ends (Holding k socks live) (with_buffer h dir c (if_allocated r)))
      (λ b m. with_buffer-Holding k socks live h dir c b m w o)
if_ascii-Holding k socks live h false dir c w o = (o.0, peer-sockets w ∙ o.1, peer-live w ∙ o.2)

with_netbuf-Holding :
    (k : Ctl) (socks : List ℕ) (live h mode : ℕ) (dir : Dir) (c : Ctl) (a : Bool) (l : List Bool)
    (w : World)
    → Owns k (h ∷ socks) live c w
    → Ends
        (Holding k socks live)
        (with_netbuf h mode dir c (if_allocated (a, record w { answers = l })))
with_netbuf-Holding k socks live h mode dir c true l w o =
    if_ascii-Holding k socks live h (mode == ascii) dir c
      (record w { answers = l; live = suc w.live }) (o.0, o.1, ap suc o.2)
with_netbuf-Holding k socks live h mode dir c false l w o =
    closed-Owns k socks live h c (record w { answers = l }) o

made_buf-Holding :
    (k : Ctl) (socks : List ℕ) (live h mode : ℕ) (dir : Dir) (c : Ctl) (w : World)
    → Owns k (h ∷ socks) live c w
    → Ends (Holding k socks live) (made_buf h mode dir c w)
unfolding made_buf
made_buf-Holding k socks live h mode dir c w o =
    ask-elim w (λ r. Ends (Holding k socks live) (with_netbuf h mode dir c (if_allocated r)))
      (λ b m. with_netbuf-Holding k socks live h mode dir c b m w o)

if_connected-Holding :
    (k : Ctl) (socks : List ℕ) (live h mode : ℕ) (dir : Dir) (c : Ctl) (a : Bool) (w : World)
    → Owns k (h ∷ socks) live c w
    → Ends (Holding k socks live) (if_connected h mode dir c (a, w))
if_connected-Holding k socks live h mode dir c true w o =
    made_buf-Holding k socks live h mode dir c w o
if_connected-Holding k socks live h mode dir c false w o = closed-Owns k socks live h c w o

if_socket-Holding :
    (k : Ctl) (socks : List ℕ) (live : ℕ) (f : ℕ → World → Opened) (c : Ctl) (w : World)
    → Owns k socks live c w
    → ((h : ℕ) (v : World) → Owns k (h ∷ socks) live c v → Ends (Holding k socks live) (f h v))
    → Ends (Holding k socks live) (if_socket f c (socket w))
if_socket-Holding k socks live f c w o g =
    ask-elim w (λ r. Ends (Holding k socks live) (if_socket f c (if_opened r))) answered
  where
    answered :
        (a : Bool) (l : List Bool)
        → Ends (Holding k socks live) (if_socket f c (if_opened (a, record w { answers = l })))
    answered true l =
        let v : World = record w { answers = l; next = suc w.next; sockets = w.next ∷ w.sockets } in
        g w.next v (o.0, ap (◌∷◌ w.next) o.1, o.2)
    answered false l = o

module _ (sscanf_u6 : List ℕ → List ℕ) where
  connect_to-Holding :
      (k : Ctl) (socks : List ℕ) (live mode : ℕ) (dir : Dir) (c : Ctl) (w : World)
      (a : Option (List ℕ))
      → Owns k socks live c w
      → Ends (Holding k socks live) (connect_to sscanf_u6 mode dir c w a)
  connect_to-Holding k socks live mode dir c w none o = o
  connect_to-Holding k socks live mode dir c w (some addr) o =
      if_socket-Holding k socks live (λ h v. if_connected h mode dir c (ask (dial addr v))) c w o
        (λ h v p.
          ask-elim (dial addr v) (λ r. Ends (Holding k socks live) (if_connected h mode dir c r))
            (λ b m.
              if_connected-Holding k socks live h mode dir c b
                (record (dial addr v) { answers = m }) p))

  if_pasv-Holding :
      (k : Ctl) (socks : List ℕ) (live mode : ℕ) (dir : Dir) (w : World) (r : Option (Bool × Ctl))
      → Kept k r
      → (w.sockets ≡ socks)
      → (w.live ≡ live)
      → Ends (Holding k socks live) (if_pasv sscanf_u6 mode dir w r)
  if_pasv-Holding k socks live mode dir w none s e l = tt
  if_pasv-Holding k socks live mode dir w (some (false, c)) s e l = (s, e, l)
  if_pasv-Holding k socks live mode dir w (some (true, c)) s e l =
      connect_to-Holding k socks live mode dir c w
        (passive_address sscanf_u6 (strchr (cut_at 0 c.response).0 40)) (s, e, l)

  by_mode-Holding :
      (k : Ctl) (socks : List ℕ) (live mode : ℕ) (dir : Dir) (p : Bool) (c : Ctl) (w : World)
      → p ≡ true
      → Owns k socks live c w
      → Ends (Holding k socks live) (by_mode sscanf_u6 p mode dir c w)
  unfolding open_passive
  by_mode-Holding k socks live mode dir true c w t o =
      if_pasv-Holding k socks live mode dir w (send_command (codes "PASV") 50 c)
        (send_command-Kept (codes "PASV") 50 k c o.0) o.1 o.2
  by_mode-Holding k socks live mode dir false c w t o = cc t

  checked-Holding :
      (k : Ctl) (socks : List ℕ) (live : ℕ) (i d m : Bool) (mode : ℕ) (dir : Dir) (c : Ctl)
      (w : World)
      → k.passive ≡ true
      → Owns k socks live c w
      → Ends (Holding k socks live) (checked sscanf_u6 i d m mode dir c w)
  checked-Holding k socks live false d m mode dir c w t o = o
  checked-Holding k socks live true false m mode dir c w t o = o
  checked-Holding k socks live true true false mode dir c w t o = o
  checked-Holding k socks live true true true mode dir c w t o =
      by_mode-Holding k socks live mode dir c.passive c w (o.0.3 ∙ t) o

  -- In passive mode.
  pub open_port-Holding :
      (k : Ctl) (socks : List ℕ) (live mode : ℕ) (dir : Dir) (c : Ctl) (w : World)
      → k.passive ≡ true
      → Owns k socks live c w
      → Ends (Holding k socks live) (open_port sscanf_u6 mode dir c w)
  unfolding open_port
  open_port-Holding k socks live mode dir c w t o =
      checked-Holding k socks live (not (is_data c.buf.dir)) (is_data dir)
        ((mode == ascii) || (mode == image)) mode dir c w t o

pub on_ctl-Owns :
    (k : Ctl) (socks : List ℕ) (live : ℕ) (w : World) (r : Option (Bool × Ctl))
    → Kept k r
    → (w.sockets ≡ socks)
    → (w.live ≡ live)
    → Ends (λ (a : Bool) c v. Owns k socks live c v) (on_ctl w r)
on_ctl-Owns k socks live w none s e l = tt
on_ctl-Owns k socks live w (some (a, c)) s e l = (s, e, l)

last_reply-Kept : (k c : Ctl) → Same k c → Kept k (last_reply c)
last_reply-Kept k c s =
    elim (Bool-cases ((get_or c.response 0 0 == 52) || (get_or c.response 0 0 == 53))) [
      | inl e ↦ rw e s
      | inr e ↦ rw e (read_response-Kept 50 k c s)
    ]

if_buffer-live :
    (t : Bool) (n : ℕ) (w : World) → w.live ≡ buffers t n → (if_buffer t w).live ≡ suc n
if_buffer-live true n w e = omega (arith, e)
if_buffer-live false n w e = e

if_buffer-sockets : (t : Bool) (w : World) → (if_buffer t w).sockets ≡ w.sockets
if_buffer-sockets true w = refl
if_buffer-sockets false w = refl

pub close_data-Owns :
    (k : Ctl) (socks : List ℕ) (live : ℕ) (b : NetBuf) (c : Ctl) (w : World)
    → Holding k socks live (some b) c w
    → Ends (λ (a : Bool) d v. Owns k socks live d v) (close_data b c w)
unfolding close_data
close_data-Owns k socks live b c w o =
    let v = if_buffer b.text w in
    on_ctl-Owns k socks live (free (closesocket b.handle v)) (last_reply c)
      (last_reply-Kept k c o.0)
      (closesocket-last b.handle v socks (if_buffer-sockets b.text w ∙ o.1))
      (omega (arith, closesocket-live b.handle v, if_buffer-live b.text live w o.2))
