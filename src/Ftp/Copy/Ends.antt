-- ===== src/Ftp/Copy/Ends.antt =====
-- The loops of a transfer end.
use esp_fmb.Prelude.{
  ℕ, zero, suc, ◌+◌, ◌≤◌, ◌<◌, ◌≢◌, Bool, true, false, none, some, List, [], ◌∷◌, arith, take, drop,
  length, length-take, length-drop, leb,
}
use esp_fmb.Prelude.Int.{ℤ, pos, negsuc}
use esp_fmb.Ftp.Buf.{control, reading, writing, Dir, NetBuf, Recv, got, failed, buffer_size}
use esp_fmb.Ftp.Line.{LineRead, overflow, line_read, read_line}
use esp_fmb.Ftp.Line.Measure.{pending}
use esp_fmb.Ftp.World.{World}
use esp_fmb.Ftp.World.Owns.{ask-elim}
use esp_fmb.Ftp.Access.{Kind, file_write}
use esp_fmb.Ftp.Copy.{
  Chunk, line_chunk, recv_chunk, by_text, if_reading, read_client, write_client, line_bytes, Copied,
  endless, added, keep, in_round, copy_in, if_written, out_round, copy_out, copy,
}
use esp_fmb.Ftp.Line.Measure.{left_in, Shrinks, read_line-Shrinks}

-- A chunk that is not empty has used up a byte or an answer of `recv`.
abbrev ChunkShrinks : ℕ → Chunk → Type 0
ChunkShrinks n none = Unit
ChunkShrinks n (some ([], b)) = Unit
ChunkShrinks n (some (c ∷ s, b)) = pending b.avail b.recvs < n

chunk-Shrinks :
    (n : ℕ) (s : List ℕ) (b : NetBuf) → (pending b.avail b.recvs < n) → ChunkShrinks n (some (s, b))
chunk-Shrinks n [] b h = tt
chunk-Shrinks n (c ∷ s) b h = h

line_bytes-Shrinks :
    (n : ℕ) (z : ℤ) (out : List ℕ) (b : NetBuf)
    → (z ≢ negsuc 0 → pending b.avail b.recvs < n)
    → ChunkShrinks n (some (line_bytes z out, b))
line_bytes-Shrinks n (pos m) out b h = chunk-Shrinks n (take m out) b (h (λ e. cc e))
line_bytes-Shrinks n (negsuc m) out b h = tt

line_chunk-Shrinks :
    (n : ℕ) (b : NetBuf) (r : LineRead) → Shrinks n r → ChunkShrinks n (line_chunk b r)
line_chunk-Shrinks n b overflow h = tt
line_chunk-Shrinks n b (line_read l) h =
    line_bytes-Shrinks n l.ret l.out (record b { avail = l.avail; recvs = l.recvs }) h

recv_chunk-Shrinks :
    (b : NetBuf) (rs : List Recv)
    → ChunkShrinks (length b.avail + left_in rs) (some (recv_chunk b rs))
recv_chunk-Shrinks b [] = tt
recv_chunk-Shrinks b (failed ∷ rs) = tt
recv_chunk-Shrinks b (got s ∷ rs) =
    chunk-Shrinks (length b.avail + (1 + length s + left_in rs)) (take buffer_size s)
      (record b { recvs = rs }) (omega arith)

by_text-Shrinks : (t : Bool) (b : NetBuf) → ChunkShrinks (pending b.avail b.recvs) (by_text t b)
by_text-Shrinks true b =
    line_chunk-Shrinks (pending b.avail b.recvs) b (read_line buffer_size b.avail b.recvs)
      (read_line-Shrinks buffer_size b.avail b.recvs (omega arith))
by_text-Shrinks false b = recv_chunk-Shrinks b b.recvs

if_reading-Shrinks :
    (i : Dir) (n : ℕ) (r : Chunk) (b : NetBuf)
    → ChunkShrinks n r
    → ChunkShrinks n (if_reading i r b)
if_reading-Shrinks control n r b h = tt
if_reading-Shrinks writing n r b h = tt
if_reading-Shrinks reading n r b h = h

read_client-Shrinks : (b : NetBuf) → ChunkShrinks (pending b.avail b.recvs) (read_client b)
unfolding read_client
read_client-Shrinks b =
    if_reading-Shrinks b.dir (pending b.avail b.recvs) (by_text b.text b) b
      (by_text-Shrinks b.text b)

in_round-ends :
    (n : ℕ) (c : Chunk) (w : World) (more : NetBuf → World → Copied)
    → ChunkShrinks n c
    → ((b : NetBuf) (v : World) → pending b.avail b.recvs < n → more b v ≢ endless)
    → in_round c w more ≢ endless
in_round-ends n none w more s h = λ e. cc e
in_round-ends n (some ([], b)) w more s h = λ e. cc e
in_round-ends n (some (c ∷ bs, b)) w more s h =
    ask-elim w (λ r. keep (c ∷ bs) b r more ≢ endless) kept
  where
    kept : (a : Bool) (l : List Bool) → keep (c ∷ bs) b (a, record w { answers = l }) more ≢ endless
    kept true l = h b (record w { answers = l; file = added (c ∷ bs) w.file }) s
    kept false l = λ e. cc e

copy_in-ends :
    (n : ℕ) (b : NetBuf) (w : World) → pending b.avail b.recvs < n → copy_in n b w ≢ endless
unfolding copy_in
copy_in-ends zero b w h = absurd (omega arith)
copy_in-ends (suc n) b w h =
    in_round-ends (pending b.avail b.recvs) (read_client b) w (copy_in n) (read_client-Shrinks b)
      (λ d v k. copy_in-ends n d v (omega arith))

if_written-ends :
    (t : Bool) (b : NetBuf) (w : World) (more : NetBuf → World → Copied)
    → more b w ≢ endless
    → if_written t b w more ≢ endless
if_written-ends false b w more h = λ e. cc e
if_written-ends true b w more h = h

out_round-ends :
    (s : List ℕ) (b : NetBuf) (w : World) (more : NetBuf → World → Copied)
    → (1 ≤ length s → (d : NetBuf) → more d w ≢ endless)
    → out_round s b w more ≢ endless
out_round-ends [] b w more h = λ e. cc e
out_round-ends (c ∷ s) b w more h =
    let r = write_client (c ∷ s) b in
    if_written-ends (leb (length (c ∷ s)) r.0) r.1 w more (h (omega arith) r.1)

copy_out-ends : (n : ℕ) (b : NetBuf) (w : World) → length w.input < n → copy_out n b w ≢ endless
unfolding copy_out
copy_out-ends zero b w h = absurd (omega arith)
copy_out-ends (suc n) b w h =
    out_round-ends (take buffer_size w.input) b (record w { input = drop buffer_size w.input })
      (copy_out n)
      (λ k d.
        copy_out-ends n d (record w { input = drop buffer_size w.input })
          (omega (arith, length-take buffer_size w.input, length-drop buffer_size w.input, k)))

-- The rounds of a transfer are enough for the bytes and answers that are to come.
copy-ends : (kind : Kind) (b : NetBuf) (w : World) → copy kind b w ≢ endless
copy-ends file_write b w = copy_out-ends (suc (length w.input)) b w (omega arith)
copy-ends kind b w = copy_in-ends (suc (pending b.avail b.recvs)) b w (omega arith)
