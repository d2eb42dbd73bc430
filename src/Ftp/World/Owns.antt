-- ===== src/Ftp/World/Owns.antt =====
-- What a data connection owns: its socket and its memory.
use esp_fmb.Prelude.{
  ℕ, suc, ◌≡◌, refl, ap, ◌∙◌, Bool, true, false, Option, none, some, List, [], ◌∷◌, ◌==◌, arith,
}
use esp_fmb.Ftp.Buf.{NetBuf, Ctl}
use esp_fmb.Ftp.Reply.Kept.{Same}
use esp_fmb.Ftp.World.{
  World, Peer, ask, with_answers, closesocket, remove, peer, first_peer, Step, bind,
}

pub closesocket-last :
    (h : ℕ) (w : World) (rest : List ℕ) → w.sockets ≡ h ∷ rest → (closesocket h w).sockets ≡ rest
unfolding closesocket
closesocket-last h w rest e =
    let f : (h == h) ≡ true = ground arith in ap (remove h) e ∙ (rw f refl)

pub closesocket-live : (h : ℕ) (w : World) → (closesocket h w).live ≡ w.live
unfolding closesocket
closesocket-live h w = refl

-- The connection is that of the beginning, and so many sockets and allocations are open.
abbrev pub Owns : Ctl → List ℕ → ℕ → Ctl → World → Type 0
Owns k socks live c w = Same k c × (w.sockets ≡ socks) × (w.live ≡ live)

abbrev pub buffers : Bool → ℕ → ℕ
buffers true n = suc (suc n)
buffers false n = suc n

-- A data connection owns its socket, its `NetBuf` and the buffer for text.
abbrev pub Holding : Ctl → List ℕ → ℕ → Option NetBuf → Ctl → World → Type 0
Holding k socks live none c w = Owns k socks live c w
Holding k socks live (some b) c w = Owns k (b.handle ∷ socks) (buffers b.text live) c w

-- What holds of every result there is.
abbrev pub Ends : {A : Type 0} → (A → Ctl → World → Type 0) → Step A → Type 0
Ends p none = Unit
Ends p (some (a, c, w)) = p a c w

pub Ends-bind :
    {A B : Type 0} (p : A → Ctl → World → Type 0) (q : B → Ctl → World → Type 0) (r : Step A)
    (k : A → Ctl → World → Step B)
    → Ends p r
    → ((a : A) (c : Ctl) (w : World) → p a c w → Ends q (k a c w))
    → Ends q (bind r k)
Ends-bind p q none k e f = tt
Ends-bind p q (some (a, c, w)) k e f = f a c w e

pub Ends-mono :
    {A : Type 0} (p q : A → Ctl → World → Type 0) (r : Step A)
    → ((a : A) (c : Ctl) (w : World) → p a c w → q a c w)
    → Ends p r
    → Ends q r
Ends-mono p q none f e = tt
Ends-mono p q (some (a, c, w)) f e = f a c w e

pub ask-elim :
    (w : World) (p : Bool × World → Type 0)
    → ((a : Bool) (l : List Bool) → p (a, record w { answers = l }))
    → p (ask w)
ask-elim w p h = ask_of w.answers
  where
    ask_of : (l : List Bool) → p (with_answers w l)
    ask_of [] = h false w.answers
    ask_of (a ∷ rest) = h a rest

pub peer-elim :
    (w : World) (p : Peer × World → Type 0)
    → ((a : Peer) (l : List Peer) → p (a, record w { peers = l }))
    → p (peer w)
peer-elim w p h = peer_of w.peers
  where
    peer_of : (l : List Peer) → p (first_peer w l)
    peer_of [] = h (record { recvs = []; sends = [] }) w.peers
    peer_of (a ∷ rest) = h a rest

pub peer-sockets : (w : World) → (peer w).1.sockets ≡ w.sockets
peer-sockets w = peer-elim w (λ r. r.1.sockets ≡ w.sockets) (λ a l. refl)

pub peer-live : (w : World) → (peer w).1.live ≡ w.live
peer-live w = peer-elim w (λ r. r.1.live ≡ w.live) (λ a l. refl)

pub closed-Owns :
    (k : Ctl) (socks : List ℕ) (live h : ℕ) (c : Ctl) (w : World)
    → Owns k (h ∷ socks) live c w
    → Owns k socks live c (closesocket h w)
closed-Owns k socks live h c w (s, e, l) =
    (s, closesocket-last h w socks e, closesocket-live h w ∙ l)
