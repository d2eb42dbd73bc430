-- ===== src/Ftp/Copy/Balance.antt =====
-- A transfer gives back its socket and the memory at its end.
use esp_fmb.Prelude.{
  ℕ, zero, suc, ◌≡◌, refl, sym, ap, ◌∙◌, Bool, true, false, Option, none, some, List, [], ◌∷◌,
  arith, take, drop, length, leb,
}
use esp_fmb.Ftp.Buf.{NetBuf, Ctl, buffer_size}
use esp_fmb.Ftp.Line.Measure.{pending}
use esp_fmb.Ftp.Reply.Kept.{Same}
use esp_fmb.Ftp.World.{World, if_allocated, free}
use esp_fmb.Ftp.World.Owns.{Owns, buffers, Holding, Ends, Ends-bind, ask-elim}
use esp_fmb.Ftp.Access.{Kind, file_read, file_write, access, close_data}
use esp_fmb.Ftp.Access.Owns.{close_data-Owns}
use esp_fmb.Ftp.Copy.{
  Chunk, read_client, write_client, Copied, copied, undefined, endless, added, keep, in_round,
  copy_in, if_written, out_round, copy_out, copy, fopen, unless_kept, no_access, finish, with_dbuf,
  after_access, if_fopen, xfer,
}
use esp_fmb.Ftp.Access.Balance.{access-Holding}
use esp_fmb.Ftp.Copy.Owns.{SameBuf, ChunkSame, write_client-Same, read_client-Same}

-- The loop changes neither the sockets nor the memory.
abbrev Balanced : NetBuf → World → Copied → Type 0
Balanced k v (copied rv b w) = SameBuf k b × (w.sockets ≡ v.sockets) × (w.live ≡ v.live)
Balanced k v undefined = Unit
Balanced k v endless = Unit

-- What the rest of the loop does.
abbrev More : NetBuf → World → (NetBuf → World → Copied) → Type 0
More k v more =
    (b : NetBuf) (w : World)
    → SameBuf k b
    → w.sockets ≡ v.sockets
    → w.live ≡ v.live
    → Balanced k v (more b w)

in_round-Balanced :
    (k : NetBuf) (v : World) (c : Chunk) (w : World) (more : NetBuf → World → Copied)
    → ChunkSame k c
    → w.sockets ≡ v.sockets
    → w.live ≡ v.live
    → More k v more
    → Balanced k v (in_round c w more)
in_round-Balanced k v none w more s e l m = tt
in_round-Balanced k v (some ([], b)) w more s e l m = (s, e, l)
in_round-Balanced k v (some (c ∷ bs, b)) w more s e l m =
    ask-elim w (λ r. Balanced k v (keep (c ∷ bs) b r more)) kept
  where
    kept :
        (a : Bool) (l2 : List Bool)
        → Balanced k v (keep (c ∷ bs) b (a, record w { answers = l2 }) more)
    kept true l2 = m b (record w { answers = l2; file = added (c ∷ bs) w.file }) s e l
    kept false l2 = (s, e, l)

copy_in-Balanced : (n : ℕ) (k : NetBuf) (v : World) → More k v (copy_in n)
unfolding copy_in
copy_in-Balanced zero k v b w s e l = tt
copy_in-Balanced (suc n) k v b w s e l =
    in_round-Balanced k v (read_client b) w (copy_in n) (read_client-Same k b s) e l
      (copy_in-Balanced n k v)

if_written-Balanced :
    (t : Bool) (k : NetBuf) (v : World) (more : NetBuf → World → Copied) (b : NetBuf) (w : World)
    → SameBuf k b
    → w.sockets ≡ v.sockets
    → w.live ≡ v.live
    → More k v more
    → Balanced k v (if_written t b w more)
if_written-Balanced false k v more b w s e l m = (s, e, l)
if_written-Balanced true k v more b w s e l m = m b w s e l

out_round-Balanced :
    (t : List ℕ) (k : NetBuf) (v : World) (more : NetBuf → World → Copied) (b : NetBuf) (w : World)
    → SameBuf k b
    → w.sockets ≡ v.sockets
    → w.live ≡ v.live
    → More k v more
    → Balanced k v (out_round t b w more)
out_round-Balanced [] k v more b w s e l m = (s, e, l)
out_round-Balanced (c ∷ t) k v more b w s e l m =
    let r = write_client (c ∷ t) b in
    if_written-Balanced (leb (length (c ∷ t)) r.0) k v more r.1 w (write_client-Same (c ∷ t) k b s)
      e l m

copy_out-Balanced : (n : ℕ) (k : NetBuf) (v : World) → More k v (copy_out n)
unfolding copy_out
copy_out-Balanced zero k v b w s e l = tt
copy_out-Balanced (suc n) k v b w s e l =
    out_round-Balanced (take buffer_size w.input) k v (copy_out n) b
      (record w { input = drop buffer_size w.input }) s e l (copy_out-Balanced n k v)

copy-Balanced : (kind : Kind) (b : NetBuf) (w : World) → Balanced b w (copy kind b w)
copy-Balanced file_write b w =
    copy_out-Balanced (suc (length w.input)) b w b w (refl, refl) refl refl
copy-Balanced kind b w =
    copy_in-Balanced (suc (pending b.avail b.recvs)) b w b w (refl, refl) refl refl

unless_kept-keeps :
    (t : Bool) (w : World)
    → ((unless_kept t w).sockets ≡ w.sockets) × ((unless_kept t w).live ≡ w.live)
unless_kept-keeps true w = (refl, refl)
unless_kept-keeps false w = (refl, refl)

module _ (k : Ctl) (socks : List ℕ) (live : ℕ) where
  abbrev Given : Bool → Ctl → World → Type 0
  Given a d v = Owns k socks live d v

  finish-Owns :
      (b : NetBuf) (v : World) (c : Ctl) (r : Copied)
      → Balanced b v r
      → Same k c
      → v.sockets ≡ b.handle ∷ socks
      → v.live ≡ suc (buffers b.text live)
      → Ends Given (finish c r)
  finish-Owns b v c undefined h s e l = tt
  finish-Owns b v c endless h s e l = tt
  finish-Owns b v c (copied rv d w) (h, f, g) s e l =
      let u = unless_kept-keeps rv (free w) in
      Ends-bind Given Given (close_data d c (unless_kept rv (free w))) (λ ok x y. some (rv, x, y))
        (close_data-Owns k socks live d c (unless_kept rv (free w)) (
          s,
          u.0 ∙ f ∙ e ∙ ap (λ z. z ∷ socks) (sym h.0),
          u.1 ∙ omega (arith, g, l) ∙ ap (λ z. buffers z live) (sym h.1),
        ))
        (λ a x y p. p)

  with_dbuf-Owns :
      (kind : Kind) (b : NetBuf) (c : Ctl) (a : Bool) (l : List Bool) (w : World)
      → Holding k socks live (some b) c w
      → Ends Given (with_dbuf kind b c (if_allocated (a, record w { answers = l })))
  with_dbuf-Owns kind b c false l w o = tt
  with_dbuf-Owns kind b c true l w o =
      let v : World = record w { answers = l; live = suc w.live } in
      finish-Owns b v c (copy kind b v) (copy-Balanced kind b v) o.0 o.1 (ap suc o.2)

  no_access-Owns :
      (kind : Kind) (c : Ctl) (w : World)
      → Owns k socks live c w
      → Owns k socks live c (no_access kind w)
  no_access-Owns file_read c w o = o
  no_access-Owns kind c w o = o

  after_access-Owns :
      (kind : Kind) (b : Option NetBuf) (c : Ctl) (w : World)
      → Holding k socks live b c w
      → Ends Given (after_access kind b c w)
  after_access-Owns kind none c w o = no_access-Owns kind c w o
  after_access-Owns kind (some b) c w o =
      ask-elim w (λ r. Ends Given (with_dbuf kind b c (if_allocated r)))
        (λ a l. with_dbuf-Owns kind b c a l w o)

fopen-Owns :
    (kind : Kind) (k : Ctl) (socks : List ℕ) (live : ℕ) (c : Ctl) (w : World)
    → Owns k socks live c w
    → Owns k socks live c (fopen kind w)
fopen-Owns file_write k socks live c w o = o
fopen-Owns kind k socks live c w o = o

-- In passive mode a transfer that ends has closed the sockets and freed the memory that it took,
-- whatever fails on the way, and has kept the control connection.
pub xfer-Owns :
    (strerror : World → List ℕ) (sscanf_u6 : List ℕ → List ℕ) (path : Option (List ℕ)) (kind : Kind)
    (mode : ℕ) (c : Ctl) (w : World)
    → c.passive ≡ true
    → Ends
        (λ (a : Bool) d v. Owns c w.sockets w.live d v)
        (xfer strerror sscanf_u6 path kind mode c w)
unfolding xfer
xfer-Owns strerror sscanf_u6 path kind mode c w p =
    ask-elim w
      (λ r. Ends (Given c w.sockets w.live) (if_fopen strerror sscanf_u6 path kind mode c r)) opened
  where
    opened :
        (a : Bool) (l : List Bool)
        → Ends
            (Given c w.sockets w.live)
            (if_fopen strerror sscanf_u6 path kind mode c (a, record w { answers = l }))
    opened true l =
        let v : World = fopen kind (record w { answers = l }) in
        Ends-bind (Holding c w.sockets w.live) (Given c w.sockets w.live)
          (access strerror sscanf_u6 path kind mode c v) (after_access kind)
          (access-Holding strerror sscanf_u6 c w.sockets w.live p path kind mode c v (
            fopen-Owns kind c w.sockets w.live c (record w { answers = l })
              ((refl, refl, refl, refl), refl, refl)))
          (after_access-Owns c w.sockets w.live kind)
    opened false l = ((refl, refl, refl, refl), refl, refl)
