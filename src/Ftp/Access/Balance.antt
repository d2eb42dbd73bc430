-- ===== src/Ftp/Access/Balance.antt =====
-- `accessFtpClient` in passive mode ends with a data connection, or with all that it took given back.
use esp_fmb.Prelude.{ℕ, ◌≡◌, ◌∙◌, Bool, true, false, Option, none, some, List, [], ◌∷◌, ◌++◌}
use esp_fmb.Prelude.Text.{codes}
use esp_fmb.Ftp.Buf.{Dir, NetBuf, Ctl}
use esp_fmb.Ftp.Reply.{send_command}
use esp_fmb.Ftp.Reply.Kept.{send_command-Kept}
use esp_fmb.Ftp.World.{World, bind, on_ctl}
use esp_fmb.Ftp.World.Owns.{Owns, buffers, Holding, Ends, Ends-bind}
use esp_fmb.Ftp.Port.{Opened, open_port}
use esp_fmb.Ftp.Access.{
  Kind, word_of, transfer_command, give_up, accept_if, if_begun, begin_transfer, if_command,
  if_word, if_typed, has_path, if_path, access, close_data,
}
use esp_fmb.Ftp.Access.Owns.{open_port-Holding, close_data-Owns, on_ctl-Owns}

module _ (strerror : World → List ℕ) (sscanf_u6 : List ℕ → List ℕ) (k : Ctl) (socks : List ℕ)
    (live : ℕ) (passive : k.passive ≡ true) where
  give_up-Holding :
      (b : NetBuf) (c : Ctl) (w : World)
      → Holding k socks live (some b) c w
      → Ends (Holding k socks live) (give_up strerror sscanf_u6 b c w)
  give_up-Holding b c w o =
      Ends-bind (λ (a : Bool) d v. Owns k socks live d v) (Holding k socks live) (close_data b c w)
        (λ ok d v. some (none, d, v)) (close_data-Owns k socks live b c w o) (λ a d v p. p)

  accept_if-Holding :
      (t : Bool) (b : NetBuf) (c : Ctl) (w : World)
      → t ≡ true
      → Holding k socks live (some b) c w
      → Ends (Holding k socks live) (accept_if strerror sscanf_u6 t b c w)
  accept_if-Holding true b c w t o = o
  accept_if-Holding false b c w t o = cc t

  if_begun-Holding :
      (b : NetBuf) (t : Bool) (c : Ctl) (w : World)
      → Holding k socks live (some b) c w
      → Ends (Holding k socks live) (if_begun strerror sscanf_u6 b t c w)
  if_begun-Holding b true c w o = accept_if-Holding c.passive b c w (o.0.3 ∙ passive) o
  if_begun-Holding b false c w o = give_up-Holding b c w o

  begin_transfer-Holding :
      (cmd : List ℕ) (b : Option NetBuf) (c : Ctl) (w : World)
      → Holding k socks live b c w
      → Ends (Holding k socks live) (begin_transfer strerror sscanf_u6 cmd b c w)
  begin_transfer-Holding cmd none c w o = o
  begin_transfer-Holding cmd (some b) c w o =
      Ends-bind (λ (a : Bool) d v. Holding k socks live (some b) d v) (Holding k socks live)
        (on_ctl w (send_command cmd 49 c)) (if_begun strerror sscanf_u6 b)
        (on_ctl-Owns k (b.handle ∷ socks) (buffers b.text live) w (send_command cmd 49 c)
          (send_command-Kept cmd 49 k c o.0) o.1 o.2)
        (if_begun-Holding b)

  if_command-Holding :
      (mode : ℕ) (dir : Dir) (cmd : Option (List ℕ)) (c : Ctl) (w : World)
      → Owns k socks live c w
      → Ends (Holding k socks live) (if_command strerror sscanf_u6 mode dir cmd c w)
  if_command-Holding mode dir none c w o = o
  if_command-Holding mode dir (some cmd) c w o =
      Ends-bind (Holding k socks live) (Holding k socks live) (open_port sscanf_u6 mode dir c w)
        (begin_transfer strerror sscanf_u6 cmd)
        (open_port-Holding sscanf_u6 k socks live mode dir c w passive o)
        (begin_transfer-Holding cmd)

  if_word-Holding :
      (mode : ℕ) (kind : Kind) (path : Option (List ℕ)) (t : Option (List ℕ × Dir)) (c : Ctl)
      (w : World)
      → Owns k socks live c w
      → Ends (Holding k socks live) (if_word strerror sscanf_u6 mode kind path t c w)
  if_word-Holding mode kind path none c w o = o
  if_word-Holding mode kind path (some (word, dir)) c w o =
      if_command-Holding mode dir (transfer_command word path) c w o

  if_typed-Holding :
      (mode : ℕ) (kind : Kind) (path : Option (List ℕ)) (t : Bool) (c : Ctl) (w : World)
      → Owns k socks live c w
      → Ends (Holding k socks live) (if_typed strerror sscanf_u6 mode kind path t c w)
  if_typed-Holding mode kind path false c w o = o
  if_typed-Holding mode kind path true c w o = if_word-Holding mode kind path (word_of kind) c w o

  if_path-Holding :
      (t : Bool) (r : Opened) (c : Ctl) (w : World)
      → Ends (Holding k socks live) r
      → Owns k socks live c w
      → Ends (Holding k socks live) (if_path strerror sscanf_u6 t r c w)
  if_path-Holding true r c w e o = e
  if_path-Holding false r c w e o = o

  pub access-Holding :
      (path : Option (List ℕ)) (kind : Kind) (mode : ℕ) (c : Ctl) (w : World)
      → Owns k socks live c w
      → Ends (Holding k socks live) (access strerror sscanf_u6 path kind mode c w)
  unfolding access
  access-Holding path kind mode c w o =
      let typed = send_command (codes "TYPE " ++ mode ∷ []) 50 c in
      if_path-Holding (has_path strerror sscanf_u6 kind path)
        (bind (on_ctl w typed) (if_typed strerror sscanf_u6 mode kind path)) c w
        (Ends-bind (λ (a : Bool) d v. Owns k socks live d v) (Holding k socks live) (on_ctl w typed)
          (if_typed strerror sscanf_u6 mode kind path)
          (on_ctl-Owns k socks live w typed
            (send_command-Kept (codes "TYPE " ++ mode ∷ []) 50 k c o.0) o.1 o.2)
          (if_typed-Holding mode kind path))
        o
