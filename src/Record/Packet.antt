-- ===== src/Record/Packet.antt =====
-- The packet that `make_record` builds is a frame of the protocol.
use esp_fmb.Prelude.{
  ℕ, zero, suc, ◌+◌, ◌-◌, ◌*◌, ◌<◌, ◌≡◌, refl, sym, ap, ap₂, subst, ◌∙◌, List, [], ◌∷◌, ◌++◌,
  length, take, length-append, append_assoc, arith,
}
use esp_fmb.Prelude.Words.{htons, htonl, le16, le32}
use esp_fmb.Crc.{ksum}
use esp_fmb.Crc.Reference.{crc16, crc16-lt, ksum-eq-crc16, AllBytes}
use esp_fmb.Frame.{avl_frame, be32}
use esp_fmb.Mirror.{Mir, mir_bytes}
use esp_fmb.Mirror.Laws.{length-mir_bytes, mir_bytes-AllBytes, IsBytes}
use esp_fmb.Record.{copies, packet, sizeof_mir, stamp}

pub take-append {ℓ} : {A : Type ℓ} (xs ys : List A) → take (length xs) (xs ++ ys) ≡ xs
take-append [] ys = refl
take-append (x ∷ xs) ys = ap (◌∷◌ x) (take-append xs ys)

pub AllBytes-append : (xs ys : List ℕ) → AllBytes xs → AllBytes ys → AllBytes (xs ++ ys)
AllBytes-append [] ys h k = k
AllBytes-append (x ∷ xs) ys h k = (h.0, AllBytes-append xs ys h.1 k)

-- The memory of a converted word is the word in network order.
pub le32-htonl : (x : ℕ) → le32 (htonl x) ≡ be32 x
unfolding htonl
le32-htonl x = ground arith

pub le16-htons : (x : ℕ) → x < 65536 → 0 ∷ 0 ∷ le16 (htons x) ≡ be32 x
unfolding htons
le16-htons x h = ground arith

-- Any data, summed in a buffer where a byte follows it, with two zeros and the swapped sum behind.
pub framed :
    (body : List ℕ) (n : ℕ)
    → AllBytes body
    → n ≡ length body
    → le32 0
        ++ (le32 (htonl n) ++ ((body ++ 0 ∷ 0 ∷ []) ++ le16 (htons (ksum (body ++ 0 ∷ 0 ∷ []) n))))
      ≡ avl_frame body
framed body n h e =
    subst
      (λ (k : ℕ).
        le32 0
          ++ (le32 (htonl k)
              ++ ((body ++ 0 ∷ 0 ∷ []) ++ le16 (htons (ksum (body ++ 0 ∷ 0 ∷ []) k))))
        ≡ avl_frame body)
      (sym e)
      (ap₂ (λ (x y : List ℕ). le32 0 ++ (x ++ y)) (le32-htonl (length body))
        (append_assoc body (0 ∷ 0 ∷ []) _ ∙ ap (◌++◌ body) (le16-htons _ small ∙ ap be32 sum)))
  where
    sum : ksum (body ++ 0 ∷ 0 ∷ []) (length body) ≡ crc16 0 body
    sum =
        ksum-eq-crc16 (body ++ 0 ∷ 0 ∷ []) (length body)
          (AllBytes-append body (0 ∷ 0 ∷ []) h (omega arith, (omega arith, tt)))
          (omega (arith, length-append body (0 ∷ 0 ∷ [])))
        ∙ ap (crc16 0) (take-append body (0 ∷ 0 ∷ []))

    small : ksum (body ++ 0 ∷ 0 ∷ []) (length body) < 65536
    small = omega (arith, sum, crc16-lt body 0 h (omega arith))

pub length-copies :
    (time_copy : ℕ → ℕ) (n i : ℕ) (m : Mir) → length (copies time_copy n i m).0 ≡ sizeof_mir * n
unfolding copies
length-copies time_copy zero i m = refl
length-copies time_copy (suc n) i m = omega (
  arith,
  length-append (mir_bytes m) (copies time_copy n (i + 1) (stamp (time_copy i) m)).0,
  length-mir_bytes m,
  length-copies time_copy n (i + 1) (stamp (time_copy i) m),
)

pub stamp-IsBytes : (t : ℕ) (m : Mir) → IsBytes m → IsBytes (stamp t m)
stamp-IsBytes t m v = record {
  gsm = v.gsm;
  ids1 = v.ids1;
  vals1 = v.vals1;
  ids2 = v.ids2;
  ids4 = v.ids4;
}

pub copies-AllBytes :
    (time_copy : ℕ → ℕ) (n i : ℕ) (m : Mir)
    → IsBytes m
    → AllBytes (copies time_copy n i m).0 × IsBytes (copies time_copy n i m).1
unfolding copies
copies-AllBytes time_copy zero i m v = (tt, v)
copies-AllBytes time_copy (suc n) i m v =
    let rest =
      copies-AllBytes time_copy n (i + 1) (stamp (time_copy i) m)
        (stamp-IsBytes (time_copy i) m v) in
    (AllBytes-append (mir_bytes m) _ (mir_bytes-AllBytes m v) rest.0, rest.1)

pub packet-frame :
    (pk : ℕ) (samples : List ℕ)
    → pk < 256
    → length samples ≡ sizeof_mir * pk
    → AllBytes samples
    → packet pk samples ≡ avl_frame (8 ∷ pk ∷ samples ++ pk ∷ [])
unfolding packet
packet-frame pk samples small e h = rw (← append_assoc samples (pk ∷ []) (0 ∷ 0 ∷ [])) (
    framed (8 ∷ pk ∷ samples ++ pk ∷ []) (2 + sizeof_mir * pk + 3 - 2)
      (omega arith, (small, AllBytes-append samples (pk ∷ []) h (small, tt)))
      (omega (arith, e, length-append samples (pk ∷ []))))
