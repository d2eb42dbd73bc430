-- ===== src/NetLog/Steps.antt =====
-- What the operations of the log do to a bounded queue that knows no memory and no sockets.
use esp_fmb.Prelude.{
  ℕ, suc, ◌-◌, ◌≤◌, ◌<◌, ◌≡◌, refl, sym, ap, subst, Bool, true, false, Option, none, some, List, [],
  ◌∷◌, ◌++◌, take, ltb, length, length-append, arith,
}
use esp_fmb.Prelude.Int.{ℤ, pos, negsuc}
use esp_fmb.NetLog.{
  Log, queue_size, if_room, put_msg, Turn, receive_msg, if_client, send_msg, Op, put, turn,
  print_if,
}

-- What happens to the queue: a message goes in; a message comes out, and the client gets some first part
-- of it, or nothing; or neither.
pub data Event : Type 0 where
  accepted : List ℕ → Event
  gone : List ℕ → Option (List ℕ) → Event
  nothing : Event

-- The queue of at most eight messages: what each operation does to it, and whether the client stays.
-- A message that is printed goes in if it is not empty, memory is there and the queue is not full. At
-- a turn the oldest message comes out, and the client gets of it what the network takes; an empty
-- message, an error of the network, or, with nothing to send, an end of the connection lose the
-- client.
pub data Fifo : Op → List (List ℕ) → Event → List (List ℕ) → Bool → Type 0 where
  accept :
      (c : ℕ) (m : List ℕ) (q : List (List ℕ))
      → length q < 8
      → Fifo (put true (c ∷ m)) q (accepted (c ∷ m)) (q ++ (c ∷ m) ∷ []) true
  full :
      (c : ℕ) (m : List ℕ) (q : List (List ℕ))
      → 8 ≤ length q
      → Fifo (put true (c ∷ m)) q nothing q true
  no_memory : (m : List ℕ) (q : List (List ℕ)) → Fifo (put false m) q nothing q true
  empty : (ok : Bool) (q : List (List ℕ)) → Fifo (put ok []) q nothing q true
  deliver :
      (n : ℕ) (b : Bool) (c : ℕ) (m : List ℕ) (q : List (List ℕ))
      → Fifo
          (turn (record { taken = some n; offline = b }))
          ((c ∷ m) ∷ q)
          (gone (c ∷ m) (some (take n (c ∷ m))))
          q
          true
  lose :
      (b : Bool) (m : List ℕ) (q : List (List ℕ))
      → Fifo (turn (record { taken = none; offline = b })) (m ∷ q) (gone m none) q false
  lose_empty : (t : Turn) (q : List (List ℕ)) → Fifo (turn t) ([] ∷ q) (gone [] none) q false
  idle : (n : Option ℕ) → Fifo (turn (record { taken = n; offline = false })) [] nothing [] true
  leave : (n : Option ℕ) → Fifo (turn (record { taken = n; offline = true })) [] nothing [] false

-- What the network took, the last first.
abbrev pub out : Event → List (List ℕ) → List (List ℕ)
out (accepted m) s = s
out (gone m none) s = s
out (gone m (some x)) s = x ∷ s
out nothing s = s

-- Each message in the queue, and nothing else, is allocated.
abbrev pub IsTidy : Log → Type 0
IsTidy l = (l.live ≡ length l.queue) × (length l.queue ≤ queue_size)

-- The client is the one before, or none.
abbrev Stays : Bool → Option ℕ → Option ℕ → Type 0
Stays true a b = b ≡ a
Stays false a b = Unit

-- A step of the code is one of the queue, and keeps the memory in order.
pub record Steps (op : Op) (l k : Log) (stays : Bool) : Type 0 where
  pub event : Event
  pub does : Fifo op l.queue event k.queue stays
  pub sends : k.sent ≡ out event l.sent
  pub tidy : IsTidy k
  pub client : Stays stays l.client k.client

if_room-Steps :
    (c : ℕ) (m : List ℕ) (l : Log) (b : Bool)
    → ltb (length l.queue) queue_size ≡ b
    → IsTidy l
    → Steps (put true (c ∷ m)) l (if_room b (c ∷ m) (record l { live = suc l.live })).1 true
if_room-Steps c m l true e (h, k) = record {
  event = accepted (c ∷ m);
  does = accept c m l.queue (ground arith);
  sends = refl;
  tidy = (
    omega (arith, length-append l.queue ((c ∷ m) ∷ []), h),
    ground (arith, length-append l.queue ((c ∷ m) ∷ [])),
  );
  client = refl;
}
if_room-Steps c m l false e (h, k) = record {
  event = nothing;
  does = full c m l.queue (ground arith);
  sends = refl;
  tidy = (omega (arith, h), k);
  client = refl;
}

put_msg-Steps :
    (ok : Bool) (st : List ℕ) (l : Log)
    → IsTidy l
    → Steps (put ok st) l (put_msg ok (some st) l).1 true
unfolding put_msg
put_msg-Steps ok [] l h = record {
  event = nothing;
  does = empty ok l.queue;
  sends = refl;
  tidy = h;
  client = refl;
}
put_msg-Steps false (c ∷ m) l h = record {
  event = nothing;
  does = no_memory (c ∷ m) l.queue;
  sends = refl;
  tidy = h;
  client = refl;
}
put_msg-Steps true (c ∷ m) l h = if_room-Steps c m l (ltb (length l.queue) queue_size) refl h

-- What is printed with a client.
pub print_if-Steps :
    (s : ℕ) (ok : Bool) (st : List ℕ) (l : Log)
    → IsTidy l
    → Steps (put ok st) l (print_if (some s) ok st l) true
print_if-Steps s ok st l h = put_msg-Steps ok st l h

-- An answer of at least 0 keeps the client.
abbrev pub stays_for : ℤ → Bool
stays_for (pos n) = true
stays_for (negsuc n) = false

taken_out :
    (q : List (List ℕ)) (m : List ℕ) (l : Log)
    → l.queue ≡ m ∷ q
    → IsTidy l
    → (l.live - 1 ≡ length q) × (length q ≤ queue_size)
taken_out q m l e h = (omega (arith, h.0, ap length e), omega (arith, h.1, ap length e))

receive_msg-Steps :
    (n : Option ℕ) (b : Bool) (q : List (List ℕ)) (l : Log)
    → l.queue ≡ q
    → IsTidy l
    → let t : Turn = record { taken = n; offline = b } in
      Steps (turn t) l (receive_msg t q l).1 (stays_for (receive_msg t q l).0)
receive_msg-Steps n true [] l e h = record {
  event = nothing;
  does =
      subst (λ z. Fifo (turn (record { taken = n; offline = true })) z nothing z false) (sym e)
        (leave n);
  sends = refl;
  tidy = h;
  client = tt;
}
receive_msg-Steps n false [] l e h = record {
  event = nothing;
  does =
      subst (λ z. Fifo (turn (record { taken = n; offline = false })) z nothing z true) (sym e)
        (idle n);
  sends = refl;
  tidy = h;
  client = refl;
}
receive_msg-Steps n b ([] ∷ q) l e h =
    let t : Turn = record { taken = n; offline = b } in
    record {
      event = gone [] none;
      does = subst (λ z. Fifo (turn t) z (gone [] none) q false) (sym e) (lose_empty t q);
      sends = refl;
      tidy = taken_out q [] l e h;
      client = tt;
    }
receive_msg-Steps none b ((c ∷ m) ∷ q) l e h =
    let t : Turn = record { taken = none; offline = b } in
    record {
      event = gone (c ∷ m) none;
      does = subst (λ z. Fifo (turn t) z (gone (c ∷ m) none) q false) (sym e) (lose b (c ∷ m) q);
      sends = refl;
      tidy = taken_out q (c ∷ m) l e h;
      client = tt;
    }
receive_msg-Steps (some n) b ((c ∷ m) ∷ q) l e h =
    let t : Turn = record { taken = some n; offline = b } in
    let ev = gone (c ∷ m) (some (take n (c ∷ m))) in
    record {
      event = ev;
      does = subst (λ z. Fifo (turn t) z ev q true) (sym e) (deliver n b c m q);
      sends = refl;
      tidy = taken_out q (c ∷ m) l e h;
      client = refl;
    }

-- One turn of the server with a client.
pub send_msg-Steps :
    (t : Turn) (s : ℕ) (l : Log)
    → l.client ≡ some s
    → IsTidy l
    → Steps (turn t) l (send_msg t l).1 (stays_for (send_msg t l).0)
unfolding send_msg
send_msg-Steps t s l e h =
    subst
      (λ o.
        Steps (turn t) l (if_client o (receive_msg t l.queue l) l).1
          (stays_for (if_client o (receive_msg t l.queue l) l).0))
      (sym e) (receive_msg-Steps t.taken t.offline l.queue l refl h)
