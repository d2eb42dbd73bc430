-- ===== src/NetLog.antt =====
-- The log server of main/tcp_srv.c: `putMsg` of the tasks that print, and `sendMsg` of the task that has
-- a client. A message is given without its 0. What the sockets and the allocator answer is an argument.
pub mod Fifo
pub mod Steps
use esp_fmb.Prelude.{
  ℕ, zero, suc, ◌+◌, ◌-◌, ◌%◌, ◌^◌, Bool, true, false, Option, none, some, List, [], ◌∷◌, ◌++◌, ltb,
  length, take,
}
use esp_fmb.Prelude.Int.{ℤ, pos, negsuc}

-- `queue` is `msgq`, the oldest message first; `live` counts the messages allocated; `client` is
-- `tcpCli`, none being -1; `sent` is what the network took, the last first; `closed` are the sockets
-- closed, the last first.
pub record Log : Type 0 where
  pub queue : List (List ℕ)
  pub live : ℕ
  pub client : Option ℕ
  pub sent : List (List ℕ)
  pub closed : List ℕ

-- The size that `xQueueCreate` is given in main/main.c.
abbrev pub queue_size : ℕ
queue_size = 8

-- `net_log_close`, which leaves -1.
abbrev pub net_log_close : Option ℕ → List ℕ → List ℕ
net_log_close none closed = closed
net_log_close (some s) closed = s ∷ closed

abbrev pub close_client : Log → Log
close_client l = record l { client = none; closed = net_log_close l.client l.closed }

-- The socket of the server, and the sockets closed.
abbrev pub listens : ℕ → Bool → Bool → List ℕ → Option ℕ × List ℕ
listens s true true closed = (some s, closed)
listens s true false closed = (none, net_log_close (some s) closed)
listens s false l closed = (none, net_log_close (some s) closed)

unfoldable pub create_tcp_server : Option ℕ → Bool → Bool → List ℕ → Option ℕ × List ℕ
create_tcp_server none b l closed = (none, closed)
create_tcp_server (some s) b l closed = listens s b l closed

-- `xQueueSend` without waiting.
abbrev pub if_room : Bool → List ℕ → Log → ℤ × Log
if_room true st l = (pos 0, record l { queue = l.queue ++ st ∷ [] })
if_room false st l = (negsuc 0, record l { live = l.live - 1 })

abbrev pub if_calloc : Bool → List ℕ → Log → ℤ × Log
if_calloc true st l = if_room (ltb (length l.queue) queue_size) st (record l { live = suc l.live })
if_calloc false st l = (negsuc 0, l)

-- `calloc` succeeds or fails as the Boolean says. A null pointer is none.
unfoldable pub put_msg : Bool → Option (List ℕ) → Log → ℤ × Log
put_msg ok none l = (negsuc 0, l)
put_msg ok (some []) l = (negsuc 0, l)
put_msg ok (some (c ∷ st)) l = if_calloc ok (c ∷ st) l

-- What `send` and `recv` answer: the number of the bytes taken, or an error; and whether the client has
-- closed the connection.
pub record Turn : Type 0 where
  pub taken : Option ℕ
  pub offline : Bool

abbrev pub sent_to : Option ℕ → List ℕ → Log → ℤ × Log
sent_to none m l = (negsuc 0, close_client l)
sent_to (some n) m l = (pos n, record l { sent = take n m ∷ l.sent })

abbrev pub send_text : Turn → List ℕ → Log → ℤ × Log
send_text t [] l = (negsuc 0, l)
send_text t (c ∷ m) l = sent_to t.taken (c ∷ m) l

abbrev pub freed : ℤ × Log → ℤ × Log
freed (r, l) = (r, record l { live = l.live - 1 })

abbrev pub if_offline : Bool → Log → ℤ × Log
if_offline true l = (negsuc 0, close_client l)
if_offline false l = (pos 0, l)

abbrev pub receive_msg : Turn → List (List ℕ) → Log → ℤ × Log
receive_msg t [] l = if_offline t.offline l
receive_msg t (m ∷ q) l = freed (send_text t m (record l { queue = q }))

abbrev pub if_client : Option ℕ → ℤ × Log → Log → ℤ × Log
if_client none r l = (negsuc 0, l)
if_client (some s) r l = r

unfoldable pub send_msg : Turn → Log → ℤ × Log
send_msg t l = if_client l.client (receive_msg t l.queue l) l

-- The messages that other tasks print before a turn, as `print_msg` hands them over: only when there
-- is a client.
pub data Op : Type 0 where
  put : Bool → List ℕ → Op
  turn : Turn → Op

abbrev pub print_if : Option ℕ → Bool → List ℕ → Log → Log
print_if none ok st l = l
print_if (some s) ok st l = (put_msg ok (some st) l).1

-- `while (res >= 0)`: an error ends the loop, and leaves what is still to do.
abbrev pub unless_error : ℤ → Log × List Op → Log × List Op → Log × List Op
unless_error (pos n) stop go_on = go_on
unless_error (negsuc n) stop go_on = stop

unfoldable pub serve : List Op → Log → Log × List Op
serve [] l = (l, [])
serve (put ok st ∷ ops) l = serve ops (print_if l.client ok st l)
serve (turn t ∷ ops) l = let (r, k) = send_msg t l in unless_error r (k, ops) (serve ops k)

-- The rounds of `net_log_task`, one for each answer of `accept`, until the restart.
unfoldable pub rounds : List (Option ℕ) → List Op → Log → Log
rounds [] ops l = l
rounds (none ∷ clients) ops l = rounds clients ops (record l { client = none })
rounds (some s ∷ clients) ops l =
    let (k, rest) = serve ops (record l { client = some s }) in rounds clients rest k

abbrev pub stop_server : Option ℕ → Log → Log
stop_server srv l = let k = close_client l in record k { closed = net_log_close srv k.closed }

-- The task with the socket of `create_tcp_server`, if there is one.
unfoldable pub net_log_task : Option ℕ → List (Option ℕ) → List Op → Log → Log
net_log_task none clients ops l = stop_server none l
net_log_task (some srv) clients ops l = stop_server (some srv) (rounds clients ops l)
