-- ===== src/NetLog/Fifo.antt =====
-- The log server is a bounded queue: messages come out in the order in which they went in.
use esp_fmb.Prelude.{
  ℕ, ◌≡◌, refl, sym, ap, ◌∙◌, subst, Bool, true, false, Option, none, some, List, [], ◌∷◌, ◌++◌,
  append_assoc, append-nil,
}
use esp_fmb.Prelude.Int.{ℤ, pos, negsuc}
use esp_fmb.NetLog.{
  Log, send_msg, Op, put, turn, print_if, unless_error, serve, rounds, net_log_task,
}
use esp_fmb.NetLog.Steps.{
  Event, accepted, gone, nothing, Fifo, accept, full, no_memory, empty, deliver, lose, lose_empty,
  idle, leave, out, IsTidy, Steps, stays_for, print_if-Steps, send_msg-Steps,
}

-- A client: the operations are done in turn, each of them, until there are no more or the client is
-- lost; with what happened, and the operations that are left.
pub data Serves : List Op → List (List ℕ) → List Event → List Op → List (List ℕ) → Type 0 where
  all_done : (q : List (List ℕ)) → Serves [] q [] [] q
  then_serves :
      (op : Op) (ops : List Op) (q : List (List ℕ)) (e : Event) (r : List (List ℕ))
      (es : List Event) (left : List Op) (u : List (List ℕ))
      → Fifo op q e r true
      → Serves ops r es left u
      → Serves (op ∷ ops) q (e ∷ es) left u
  lost :
      (op : Op) (ops : List Op) (q : List (List ℕ)) (e : Event) (r : List (List ℕ))
      → Fifo op q e r false
      → Serves (op ∷ ops) q (e ∷ []) ops r

-- The clients one after another; the next one gets what the one before has left.
pub data Runs
    : List (Option ℕ) → List Op → List (List ℕ) → List Event → List (List ℕ) → Type 0 where
  halt : (ops : List Op) (q : List (List ℕ)) → Runs [] ops q [] q
  no_client :
      (clients : List (Option ℕ)) (ops : List Op) (q : List (List ℕ)) (es : List Event)
      (u : List (List ℕ))
      → Runs clients ops q es u
      → Runs (none ∷ clients) ops q es u
  a_client :
      (s : ℕ) (clients : List (Option ℕ)) (ops left : List Op) (q r u : List (List ℕ))
      (es fs : List Event)
      → Serves ops q es left r
      → Runs clients left r fs u
      → Runs (some s ∷ clients) ops q (es ++ fs) u

abbrev pub all_accepted : List Event → List (List ℕ)
all_accepted [] = []
all_accepted (accepted m ∷ es) = m ∷ all_accepted es
all_accepted (gone m x ∷ es) = all_accepted es
all_accepted (nothing ∷ es) = all_accepted es

abbrev pub all_gone : List Event → List (List ℕ)
all_gone [] = []
all_gone (accepted m ∷ es) = all_gone es
all_gone (gone m x ∷ es) = m ∷ all_gone es
all_gone (nothing ∷ es) = all_gone es

-- What the network took in all, the last first.
abbrev pub all_out : List Event → List (List ℕ) → List (List ℕ)
all_out [] s = s
all_out (e ∷ es) s = all_out es (out e s)

-- What was in the queue and what goes in is what comes out and what is in the queue then.
abbrev InOrder : List (List ℕ) → List Event → List (List ℕ) → Type 0
InOrder q es u = q ++ all_accepted es ≡ all_gone es ++ u

step-order :
    (op : Op) (q : List (List ℕ)) (e : Event) (r : List (List ℕ)) (b : Bool) (es : List Event)
    (u : List (List ℕ))
    → Fifo op q e r b
    → InOrder r es u
    → InOrder q (e ∷ es) u
step-order _ _ _ _ _ es u (accept c m q k) h =
    sym (append_assoc q ((c ∷ m) ∷ []) (all_accepted es)) ∙ h
step-order _ _ _ _ _ es u (full c m q k) h = h
step-order _ _ _ _ _ es u (no_memory m q) h = h
step-order _ _ _ _ _ es u (empty ok q) h = h
step-order _ _ _ _ _ es u (deliver n b c m q) h = ap (◌∷◌ (c ∷ m)) h
step-order _ _ _ _ _ es u (lose b m q) h = ap (◌∷◌ m) h
step-order _ _ _ _ _ es u (lose_empty t q) h = ap (◌∷◌ []) h
step-order _ _ _ _ _ es u (idle n) h = h
step-order _ _ _ _ _ es u (leave n) h = h

Serves-order :
    (ops : List Op) (q : List (List ℕ)) (es fs : List Event) (left : List Op) (r u : List (List ℕ))
    → Serves ops q es left r
    → InOrder r fs u
    → InOrder q (es ++ fs) u
Serves-order _ _ _ fs _ _ u (all_done q) h = h
Serves-order _ _ _ fs _ _ u (then_serves op ops q e r es left t f s) h =
    step-order op q e r true (es ++ fs) u f (Serves-order ops r es fs left t u s h)
Serves-order _ _ _ fs _ _ u (lost op ops q e r f) h = step-order op q e r false fs u f h

Runs-order :
    (clients : List (Option ℕ)) (ops : List Op) (q : List (List ℕ)) (es : List Event)
    (u : List (List ℕ))
    → Runs clients ops q es u
    → InOrder q es u
Runs-order _ _ _ _ _ (halt ops q) = append-nil q
Runs-order _ _ _ _ _ (no_client clients ops q es u r) = Runs-order clients ops q es u r
Runs-order _ _ _ _ _ (a_client s clients ops left q r u es fs v w) =
    Serves-order ops q es fs left r u v (Runs-order clients left r fs u w)

all_out-append :
    (es fs : List Event) (s : List (List ℕ)) → all_out (es ++ fs) s ≡ all_out fs (all_out es s)
all_out-append [] fs s = refl
all_out-append (e ∷ es) fs s = all_out-append es fs (out e s)

-- What the code does with a client is what the queue does.
record Served (ops : List Op) (l : Log) (k : Log × List Op) : Type 0 where
  pub events : List Event
  pub serves : Serves ops l.queue events k.1 k.0.queue
  pub sends : k.0.sent ≡ all_out events l.sent
  pub tidy : IsTidy k.0

served :
    (op : Op) (ops : List Op) (l k : Log) (m : Log × List Op)
    → Steps op l k true
    → Served ops k m
    → Served (op ∷ ops) l m
served op ops l k m a b = record {
  events = a.event ∷ b.events;
  serves = then_serves op ops l.queue a.event k.queue b.events m.1 m.0.queue a.does b.serves;
  sends = b.sends ∙ ap (all_out b.events) a.sends;
  tidy = b.tidy;
}

unless_error-Served :
    (op : Op) (z : ℤ) (ops : List Op) (l k : Log) (m : Log × List Op)
    → Steps op l k (stays_for z)
    → (k.client ≡ l.client → IsTidy k → Served ops k m)
    → Served (op ∷ ops) l (unless_error z (k, ops) m)
unless_error-Served op (pos n) ops l k m a f = served op ops l k m a (f a.client a.tidy)
unless_error-Served op (negsuc n) ops l k m a f = record {
  events = a.event ∷ [];
  serves = lost op ops l.queue a.event k.queue a.does;
  sends = a.sends;
  tidy = a.tidy;
}

serve-Served :
    (ops : List Op) (s : ℕ) (l : Log) → l.client ≡ some s → IsTidy l → Served ops l (serve ops l)
unfolding serve
serve-Served [] s l c h = record { events = []; serves = all_done l.queue; sends = refl; tidy = h }
serve-Served (put ok st ∷ ops) s l c h =
    let k = print_if (some s) ok st l in
    let a = print_if-Steps s ok st l h in
    subst (λ o. Served (put ok st ∷ ops) l (serve ops (print_if o ok st l))) (sym c)
      (served (put ok st) ops l k (serve ops k) a (serve-Served ops s k (a.client ∙ c) a.tidy))
serve-Served (turn t ∷ ops) s l c h =
    let r = send_msg t l in
    unless_error-Served (turn t) r.0 ops l r.1 (serve ops r.1) (send_msg-Steps t s l c h)
      (λ e k. serve-Served ops s r.1 (e ∙ c) k)

-- What the task does is what the queue does, with the clients that it accepts.
pub record Refines (clients : List (Option ℕ)) (ops : List Op) (l k : Log) : Type 0 where
  pub events : List Event
  pub runs : Runs clients ops l.queue events k.queue
  pub sends : k.sent ≡ all_out events l.sent
  pub order : l.queue ++ all_accepted events ≡ all_gone events ++ k.queue
  pub tidy : IsTidy k

rounds-Refines :
    (clients : List (Option ℕ)) (ops : List Op) (l : Log)
    → IsTidy l
    → Refines clients ops l (rounds clients ops l)
unfolding rounds
rounds-Refines [] ops l h = record {
  events = [];
  runs = halt ops l.queue;
  sends = refl;
  order = append-nil l.queue;
  tidy = h;
}
rounds-Refines (none ∷ clients) ops l h =
    let r = rounds-Refines clients ops (record l { client = none }) h in
    record {
      events = r.events;
      runs = no_client clients ops l.queue r.events _ r.runs;
      sends = r.sends;
      order = r.order;
      tidy = r.tidy;
    }
rounds-Refines (some s ∷ clients) ops l h =
    let k = serve ops (record l { client = some s }) in
    let a = serve-Served ops s (record l { client = some s }) refl h in
    let r = rounds-Refines clients k.1 k.0 a.tidy in
    let u = (rounds clients k.1 k.0).queue in
    let run = a_client s clients ops k.1 l.queue k.0.queue u a.events r.events a.serves r.runs in
    record {
      events = a.events ++ r.events;
      runs = run;
      sends =
          r.sends ∙ ap (all_out r.events) a.sends ∙ sym (all_out-append a.events r.events l.sent);
      order = Runs-order (some s ∷ clients) ops l.queue (a.events ++ r.events) u run;
      tidy = r.tidy;
    }

-- Without a socket of the server nobody is accepted.
abbrev heard : Option ℕ → List (Option ℕ) → List (Option ℕ)
heard none clients = []
heard (some s) clients = clients

-- Whatever is printed, whichever clients come and whatever the network answers, the task of the log
-- does to each operation just what the queue of at most eight messages does: a message goes in only
-- if it is printed while there is a client, not empty, memory is there and the queue not full; the
-- client gets of the oldest message what the network takes, and nothing else; a client stays until
-- an error or its end. What was in the queue and what goes in comes out in the same order, and at
-- the end the messages in the queue are the only ones allocated, if they were before.
pub net_log_task-Refines :
    (srv : Option ℕ) (clients : List (Option ℕ)) (ops : List Op) (l : Log)
    → IsTidy l
    → Refines (heard srv clients) ops l (net_log_task srv clients ops l)
unfolding net_log_task
net_log_task-Refines none clients ops l h = record {
  events = [];
  runs = halt ops l.queue;
  sends = refl;
  order = append-nil l.queue;
  tidy = h;
}
net_log_task-Refines (some s) clients ops l h =
    let r = rounds-Refines clients ops l h in
    record { events = r.events; runs = r.runs; sends = r.sends; order = r.order; tidy = r.tidy }
