-- ===== src/Ftp/Task/Owns.antt =====
-- What the steps of the task own.
use esp_fmb.Prelude.{
  ℕ, suc, ◌≤◌, ◌≡◌, refl, sym, ap, ◌∙◌, subst, Bool, true, false, Option, none, some, List, ◌∷◌,
  arith, ltb,
}
use esp_fmb.Prelude.Text.{codes}
use esp_fmb.Ftp.Buf.{control, reading, writing, Dir, Ctl}
use esp_fmb.Ftp.Reply.{read_response, send_command}
use esp_fmb.Ftp.Reply.Kept.{Kept, read_response-Kept, send_command-Kept, login-Kept}
use esp_fmb.Ftp.Requests.{login}
use esp_fmb.Ftp.World.{World, if_opened, closesocket, if_allocated, free, peer, Step, bind, on_ctl}
use esp_fmb.Ftp.World.Owns.{
  closesocket-last, closesocket-live, Owns, Ends, Ends-bind, Ends-mono, ask-elim, peer-sockets,
  peer-live,
}
use esp_fmb.Ftp.Port.{ascii}
use esp_fmb.Ftp.Access.{file_read}
use esp_fmb.Ftp.Access.Owns.{on_ctl-Owns}
use esp_fmb.Ftp.Copy.{xfer, get_data}
use esp_fmb.Ftp.Task.{
  new_ctl, Connected, greeted, with_buf, with_ctrl, with_server, with_socket, close_if, if_text,
  released, if_ctl, quit, FtpVar, Outcome, with_ret, quit_after, if_mounted, if_login, session,
}
use esp_fmb.Ftp.Copy.Balance.{xfer-Owns}

-- Nothing is kept.
abbrev Clear : List ℕ → ℕ → World → Type 0
Clear socks live w = (w.sockets ≡ socks) × (w.live ≡ live)

-- A control connection owns its socket, its `NetBuf` and its buffer.
abbrev Control : List ℕ → ℕ → Ctl → World → Type 0
Control socks live c w =
    (w.sockets ≡ c.buf.handle ∷ socks)
    × (w.live ≡ suc (suc live))
    × (1 ≤ c.buf.handle)
    × (c.buf.dir ≡ control)
    × (c.buf.text ≡ true)
    × (c.passive ≡ true)

abbrev pub Connects : List ℕ → ℕ → Connected → Type 0
Connects socks live none = Unit
Connects socks live (some (none, w)) = Clear socks live w
Connects socks live (some (some c, w)) = Control socks live c w

abbrev Leaves : List ℕ → ℕ → Option World → Type 0
Leaves socks live none = Unit
Leaves socks live (some w) = Clear socks live w

abbrev pub Gives : List ℕ → ℕ → Outcome → Type 0
Gives socks live none = Unit
Gives socks live (some (ret, w)) = Clear socks live w

module _ (socks : List ℕ) (live : ℕ) where
  closed-Clear :
      (h : ℕ) (w : World)
      → w.sockets ≡ h ∷ socks
      → w.live ≡ live
      → Clear socks live (closesocket h w)
  closed-Clear h w e l = (closesocket-last h w socks e, closesocket-live h w ∙ l)

  greeted-Connects :
      (h : ℕ) (w : World) (k : Ctl) (r : Option (Bool × Ctl))
      → Control socks live k w
      → k.buf.handle ≡ h
      → Kept k r
      → Connects socks live (greeted h w r)
  greeted-Connects h w k none o e s = tt
  greeted-Connects h w k (some (true, c)) (o0, o1, o2, o3, o4, o5) e (s0, s1, s2, s3) = (
    o0 ∙ ap (λ z. z ∷ socks) (sym s0),
    o1,
    subst (λ z. 1 ≤ z) (sym s0) o2,
    s1 ∙ o3,
    s2 ∙ o4,
    s3 ∙ o5,
  )
  greeted-Connects h w k (some (false, c)) (o0, o1, o2, o3, o4, o5) e s = (
    closesocket-last h w socks (o0 ∙ ap (λ z. z ∷ socks) e),
    omega (arith, closesocket-live h w, o1),
  )

  with_buf-Connects :
      (h : ℕ) (a : Bool) (l : List Bool) (w : World)
      → 1 ≤ h
      → w.sockets ≡ h ∷ socks
      → w.live ≡ suc live
      → Connects socks live (with_buf h (if_allocated (a, record w { answers = l })))
  with_buf-Connects h false l w p e k =
      let v : World = record w { answers = l } in
      (closesocket-last h v socks e, omega (arith, closesocket-live h v, k))
  with_buf-Connects h true l w p e k =
      let v : World = record w { answers = l; live = suc w.live } in
      let c = new_ctl h (peer v).0 in
      greeted-Connects h (peer v).1 c (read_response 50 c)
        (peer-sockets v ∙ e, peer-live v ∙ ap suc k, p, refl, refl, refl) refl
        (read_response-Kept 50 c c (refl, refl, refl, refl))

  with_ctrl-Connects :
      (h : ℕ) (a : Bool) (l : List Bool) (w : World)
      → 1 ≤ h
      → w.sockets ≡ h ∷ socks
      → w.live ≡ live
      → Connects socks live (with_ctrl h (if_allocated (a, record w { answers = l })))
  with_ctrl-Connects h false l w p e k = closed-Clear h (record w { answers = l }) e k
  with_ctrl-Connects h true l w p e k =
      let v : World = record w { answers = l; live = suc w.live } in
      ask-elim v (λ r. Connects socks live (with_buf h (if_allocated r)))
        (λ b m. with_buf-Connects h b m v p e (ap suc k))

  with_server-Connects :
      (h : ℕ) (a : Bool) (w : World)
      → 1 ≤ h
      → w.sockets ≡ h ∷ socks
      → w.live ≡ live
      → Connects socks live (with_server h (a, w))
  with_server-Connects h false w p e k = closed-Clear h w e k
  with_server-Connects h true w p e k =
      ask-elim w (λ r. Connects socks live (with_ctrl h (if_allocated r)))
        (λ b m. with_ctrl-Connects h b m w p e k)

  pub with_socket-Connects :
      (a : Bool) (l : List Bool) (w : World)
      → 1 ≤ w.next
      → Clear socks live w
      → Connects socks live (with_socket (if_opened (a, record w { answers = l })))
  with_socket-Connects false l w p o = o
  with_socket-Connects true l w p o =
      let v : World = record w { answers = l; next = suc w.next; sockets = w.next ∷ w.sockets } in
      ask-elim v (λ r. Connects socks live (with_server w.next r))
        (λ b m.
          with_server-Connects w.next b (record v { answers = m }) p (ap (◌∷◌ w.next) o.0) o.1)

  close_if-sockets :
      (t : Bool) (h : ℕ) (w : World)
      → t ≡ true
      → w.sockets ≡ h ∷ socks
      → ((close_if t h w).sockets ≡ socks) × ((close_if t h w).live ≡ w.live)
  close_if-sockets true h w t e = (closesocket-last h w socks e, closesocket-live h w)
  close_if-sockets false h w t e = cc t

  if_text-Clear :
      (t : Bool) (w : World)
      → t ≡ true
      → w.sockets ≡ socks
      → w.live ≡ suc (suc live)
      → Clear socks live (free (if_text t w))
  if_text-Clear true w t e l = (e, omega (arith, l))
  if_text-Clear false w t e l = cc t

  released-Leaves :
      (k : Ctl) (w : World) (r : Option (Bool × Ctl))
      → Control socks live k w
      → Kept k r
      → Leaves socks live (released w r)
  released-Leaves k w none o s = tt
  released-Leaves k w (some (ok, c)) (o0, o1, o2, o3, o4, o5) (s0, s1, s2, s3) =
      let (f, g) =
        close_if-sockets (ltb 0 c.buf.handle) c.buf.handle w (ground (arith, s0))
          (o0 ∙ ap (λ z. z ∷ socks) (sym s0)) in
      if_text-Clear c.buf.text (close_if (ltb 0 c.buf.handle) c.buf.handle w) (s2 ∙ o4) f (g ∙ o1)

  if_ctl-Leaves :
      (i : Dir) (r : Option World) (w : World)
      → i ≡ control
      → Leaves socks live r
      → Leaves socks live (if_ctl i r w)
  if_ctl-Leaves control r w e h = h
  if_ctl-Leaves reading r w e h = cc e
  if_ctl-Leaves writing r w e h = cc e

  quit-Leaves : (c : Ctl) (w : World) → Control socks live c w → Leaves socks live (quit c w)
  unfolding quit
  quit-Leaves c w o =
      let r = send_command (codes "QUIT") 50 c in
      if_ctl-Leaves c.buf.dir (released w r) w o.3
        (released-Leaves c w r o (send_command-Kept (codes "QUIT") 50 c c (refl, refl, refl, refl)))

  with_ret-Gives :
      (ret : Bool) (r : Option World) → Leaves socks live r → Gives socks live (with_ret ret r)
  with_ret-Gives ret none h = tt
  with_ret-Gives ret (some w) h = h

  quit_after-Gives :
      (r : Step Bool)
      → Ends (λ (a : Bool) c w. Control socks live c w) r
      → Gives socks live (quit_after r)
  quit_after-Gives none h = tt
  quit_after-Gives (some (a, c, w)) h = with_ret-Gives a (quit c w) (quit-Leaves c w h)

  -- With the connection of the beginning all is still there.
  owned-Control :
      (k c : Ctl) (v w : World)
      → Control socks live k v
      → Owns k v.sockets v.live c w
      → Control socks live c w
  owned-Control k c v w (o0, o1, o2, o3, o4, o5) ((s0, s1, s2, s3), e, l) = (
    e ∙ o0 ∙ ap (λ z. z ∷ socks) (sym s0),
    l ∙ o1,
    subst (λ z. 1 ≤ z) (sym s0) o2,
    s1 ∙ o3,
    s2 ∙ o4,
    s3 ∙ o5,
  )

  module _ (strerror : World → List ℕ) (sscanf_u6 : List ℕ → List ℕ) (var : FtpVar) where
    abbrev Still : Bool → Ctl → World → Type 0
    Still a c w = Control socks live c w

    if_mounted-Still :
        (t : Bool) (c : Ctl) (w : World)
        → Control socks live c w
        → Ends Still (if_mounted strerror sscanf_u6 var t c w)
    unfolding get_data
    if_mounted-Still true c w o =
        Ends-mono (λ (a : Bool) d v. Owns c w.sockets w.live d v) Still
          (xfer strerror sscanf_u6 (some var.dev_conf) file_read ascii c w)
          (λ a d v p. owned-Control c d w v o p)
          (xfer-Owns strerror sscanf_u6 (some var.dev_conf) file_read ascii c w o.5)
    if_mounted-Still false c w o = o

    if_login-Still :
        (t : Bool) (c : Ctl) (w : World)
        → Control socks live c w
        → Ends Still (if_login strerror sscanf_u6 var t c w)
    if_login-Still true c w o = if_mounted-Still var.dev_mnt c w o
    if_login-Still false c w o = o

    pub session-Gives :
        (r : Connected)
        → Connects socks live r
        → Gives socks live (session strerror sscanf_u6 var r)
    session-Gives none h = tt
    session-Gives (some (none, w)) h = h
    session-Gives (some (some c, w)) h =
        let r = login var.dev_login var.dev_passwd c in
        let kept = login-Kept var.dev_login var.dev_passwd c c (refl, refl, refl, refl) in
        quit_after-Gives (bind (on_ctl w r) (if_login strerror sscanf_u6 var)) (
          Ends-bind (λ (a : Bool) d v. Owns c w.sockets w.live d v) Still (on_ctl w r)
            (if_login strerror sscanf_u6 var) (on_ctl-Owns c w.sockets w.live w r kept refl refl)
            (λ a d v p. if_login-Still a d v (owned-Control c d w v h p)))
