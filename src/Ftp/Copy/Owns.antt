-- ===== src/Ftp/Copy/Owns.antt =====
-- Reading from and writing to a data connection keep its socket and its buffer.
use esp_fmb.Prelude.{
  ℕ, ◌≡◌, Bool, true, false, not, ◌&&◌, Option, none, some, List, [], ◌∷◌, ◌==◌, length,
}
use esp_fmb.Ftp.Buf.{
  control, reading, writing, Dir, NetBuf, Recv, got, failed, send, send_some, buffer_size,
}
use esp_fmb.Ftp.Line.{LineRead, overflow, line_read, read_line}
use esp_fmb.Ftp.Write.{
  Held, sent_all, flush, if_full, appended, put, put_cr, put_all, send_rest, counted, if_writing,
  write_line,
}
use esp_fmb.Ftp.Copy.{
  Chunk, line_chunk, recv_chunk, by_text, if_reading, read_client, or_zero, write_by_text,
  if_writes, write_client,
}

abbrev pub SameBuf : NetBuf → NetBuf → Type 0
SameBuf b d = (d.handle ≡ b.handle) × (d.text ≡ b.text)

sent_all-Same : (t : Bool) (k b : NetBuf) → SameBuf k b → SameBuf k (sent_all t b).1
sent_all-Same true k b s = s
sent_all-Same false k b s = s

send_some-Same : (h ns : List ℕ) (k b : NetBuf) → SameBuf k b → SameBuf k (send_some h ns b).1
send_some-Same h [] k b s = s
send_some-Same h (n ∷ ns) k b s = s

flush-Same : (h : List ℕ) (k b : NetBuf) → SameBuf k b → SameBuf k (flush h b).1
unfolding flush
flush-Same h k b s =
    sent_all-Same ((send h b).0 == length h) k (send h b).1 (send_some-Same h b.sends k b s)

if_full-Same : (t : Bool) (h : List ℕ) (k b : NetBuf) → SameBuf k b → SameBuf k (if_full t h b).1
if_full-Same true h k b s = flush-Same h k b s
if_full-Same false h k b s = s

appended-Same : (c : ℕ) (k : NetBuf) (h : Held) → SameBuf k h.1 → SameBuf k (appended c h).1
appended-Same c k (none, b) s = s
appended-Same c k (some h, b) s = s

put-Same : (c : ℕ) (k : NetBuf) (h : Held) → SameBuf k h.1 → SameBuf k (put c h).1
put-Same c k (none, b) s = s
put-Same c k (some h, b) s =
    appended-Same c k (if_full (length h == buffer_size) h b)
      (if_full-Same (length h == buffer_size) h k b s)

put_cr-Same : (t : Bool) (k : NetBuf) (h : Held) → SameBuf k h.1 → SameBuf k (put_cr t h).1
put_cr-Same true k h s = put-Same 13 k h s
put_cr-Same false k h s = s

put_all-Same :
    (last : ℕ) (t : List ℕ) (k : NetBuf) (h : Held) → SameBuf k h.1 → SameBuf k (put_all last t h).1
unfolding put_all
put_all-Same last [] k h s = s
put_all-Same last (c ∷ t) k h s =
    let cr = (c == 10) && not (last == 13) in
    put_all-Same c t k (put c (put_cr cr h)) (put-Same c k (put_cr cr h) (put_cr-Same cr k h s))

send_rest-Same : (k : NetBuf) (h : Held) → SameBuf k h.1 → SameBuf k (send_rest h).1
send_rest-Same k (none, b) s = s
send_rest-Same k (some [], b) s = s
send_rest-Same k (some (c ∷ h), b) s = flush-Same (c ∷ h) k b s

counted-Same : (n : ℕ) (k : NetBuf) (h : Held) → SameBuf k h.1 → SameBuf k (counted n h).1
counted-Same n k (none, b) s = s
counted-Same n k (some h, b) s = s

if_writing-Same :
    (i : Dir) (r : Option ℕ × NetBuf) (k b : NetBuf)
    → SameBuf k r.1
    → SameBuf k b
    → SameBuf k (if_writing i r b).1
if_writing-Same control r k b s t = t
if_writing-Same reading r k b s t = t
if_writing-Same writing r k b s t = s

write_line-Same : (t : List ℕ) (k b : NetBuf) → SameBuf k b → SameBuf k (write_line t b).1
unfolding write_line
write_line-Same t k b s =
    let h = put_all 0 t (some [], b) in
    let r = counted (length t) (send_rest h) in
    if_writing-Same b.dir r k b
      (counted-Same (length t) k (send_rest h)
        (send_rest-Same k h (put_all-Same 0 t k (some [], b) s)))
      s

or_zero-Same : (k : NetBuf) (r : Option ℕ × NetBuf) → SameBuf k r.1 → SameBuf k (or_zero r).1
or_zero-Same k (none, b) s = s
or_zero-Same k (some n, b) s = s

write_by_text-Same :
    (t : Bool) (h : List ℕ) (k b : NetBuf) → SameBuf k b → SameBuf k (write_by_text t h b).1
write_by_text-Same true h k b s = or_zero-Same k (write_line h b) (write_line-Same h k b s)
write_by_text-Same false h k b s = send_some-Same h b.sends k b s

if_writes-Same :
    (i : Dir) (r : ℕ × NetBuf) (k b : NetBuf)
    → SameBuf k r.1
    → SameBuf k b
    → SameBuf k (if_writes i r b).1
if_writes-Same control r k b s t = t
if_writes-Same reading r k b s t = t
if_writes-Same writing r k b s t = s

pub write_client-Same : (h : List ℕ) (k b : NetBuf) → SameBuf k b → SameBuf k (write_client h b).1
unfolding write_client
write_client-Same h k b s =
    if_writes-Same b.dir (write_by_text b.text h b) k b (write_by_text-Same b.text h k b s) s

abbrev pub ChunkSame : NetBuf → Chunk → Type 0
ChunkSame k none = Unit
ChunkSame k (some (s, b)) = SameBuf k b

line_chunk-Same : (k b : NetBuf) (r : LineRead) → SameBuf k b → ChunkSame k (line_chunk b r)
line_chunk-Same k b overflow s = tt
line_chunk-Same k b (line_read l) s = s

recv_chunk-Same :
    (k b : NetBuf) (rs : List Recv) → SameBuf k b → ChunkSame k (some (recv_chunk b rs))
recv_chunk-Same k b [] s = s
recv_chunk-Same k b (failed ∷ rs) s = s
recv_chunk-Same k b (got x ∷ rs) s = s

by_text-Same : (t : Bool) (k b : NetBuf) → SameBuf k b → ChunkSame k (by_text t b)
by_text-Same true k b s = line_chunk-Same k b (read_line buffer_size b.avail b.recvs) s
by_text-Same false k b s = recv_chunk-Same k b b.recvs s

if_reading-Same :
    (i : Dir) (r : Chunk) (k b : NetBuf)
    → ChunkSame k r
    → SameBuf k b
    → ChunkSame k (if_reading i r b)
if_reading-Same control r k b s t = t
if_reading-Same writing r k b s t = t
if_reading-Same reading r k b s t = s

pub read_client-Same : (k b : NetBuf) → SameBuf k b → ChunkSame k (read_client b)
unfolding read_client
read_client-Same k b s = if_reading-Same b.dir (by_text b.text b) k b (by_text-Same b.text k b s) s
