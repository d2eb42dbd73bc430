-- ===== src/Record/Result.antt =====
-- What `make_record` gives back.
use esp_fmb.Prelude.{ℕ, ◌≤◌, ◌≡◌, ap, true, List, [], ◌∷◌, ◌++◌, arith, length, length-append}
use esp_fmb.Frame.{avl_frame, be32}
use esp_fmb.Crc.Reference.{crc16}
use esp_fmb.Device.{Device}
use esp_fmb.Record.{Readings, make_record, clamp_pk, scenario_step, refresh, copies, packet}
use esp_fmb.Record.Packet.{length-copies, copies-AllBytes, packet-frame}
use esp_fmb.Record.Invariant.{IsValid, scenario_step-IsValid, refresh-IsValid}

clamp_pk_bounds : (k : ℕ) → (1 ≤ clamp_pk k) × (clamp_pk k ≤ 3)
unfolding clamp_pk
clamp_pk_bounds k = ground arith

-- The samples of the packet.
abbrev pub samples_of : ℕ → ℕ → Readings → Device → List ℕ
samples_of kolpack wmode r v =
    (copies r.time_copy (clamp_pk kolpack) 0 (refresh r (scenario_step wmode r v)).mirror).0

module _ (kolpack wmode : ℕ) (r : Readings) (v : Device) (h : IsValid v)
    (got : r.allocated ≡ true) where
  valid : IsValid (refresh r (scenario_step wmode r v))
  valid = refresh-IsValid r _ (scenario_step-IsValid wmode r v h)

  framed_packet :
      packet (clamp_pk kolpack) (samples_of kolpack wmode r v)
      ≡ avl_frame (8 ∷ clamp_pk kolpack ∷ samples_of kolpack wmode r v ++ clamp_pk kolpack ∷ [])
  framed_packet =
      packet-frame (clamp_pk kolpack) (samples_of kolpack wmode r v)
        (omega (arith, clamp_pk_bounds kolpack)) (length-copies r.time_copy (clamp_pk kolpack) 0 _)
        (copies-AllBytes r.time_copy (clamp_pk kolpack) 0 _ valid.bytes).0

  -- For a device that keeps the invariant, and if `calloc` gives a buffer, the packet is one frame
  -- of the protocol, whose data are the codec number 8, the number of samples, the samples, and
  -- their number again.
  pub make_record-frame :
      (make_record kolpack wmode r v).1
      ≡ avl_frame (8 ∷ clamp_pk kolpack ∷ samples_of kolpack wmode r v ++ clamp_pk kolpack ∷ [])
  unfolding make_record
  make_record-frame = simp got framed_packet

  -- For a device that keeps the invariant, and if `calloc` gives a buffer, the returned length is
  -- that of the frame, and the frame fits the buffer of 4096 bytes.
  pub make_record-length :
      ((make_record kolpack wmode r v).2 ≡ length (make_record kolpack wmode r v).1)
      × ((make_record kolpack wmode r v).2 ≤ 4096)
  unfolding make_record
  make_record-length = simp got (
      omega (
        arith,
        clamp_pk_bounds kolpack,
        length-copies r.time_copy (clamp_pk kolpack) 0 (refresh r (scenario_step wmode r v)).mirror,
        length-append (samples_of kolpack wmode r v) (clamp_pk kolpack ∷ []),
        length-append (8 ∷ clamp_pk kolpack ∷ samples_of kolpack wmode r v ++ clamp_pk kolpack ∷ [])
            (be32 (
              crc16 0
                (8 ∷ clamp_pk kolpack ∷ samples_of kolpack wmode r v ++ clamp_pk kolpack ∷ []))),
        ap length framed_packet,
      ))

  -- If `calloc` gives a buffer, the invariant is kept: the fields of one byte of the mirror and the
  -- priority are bytes, and the number of the entry is from 1 to the total, or 1.
  pub make_record-IsValid : IsValid (make_record kolpack wmode r v).0
  unfolding make_record
  make_record-IsValid = simp got (record {
    bytes = (copies-AllBytes r.time_copy (clamp_pk kolpack) 0 _ valid.bytes).1;
    prio = valid.prio;
    index_pos = valid.index_pos;
    index_le = valid.index_le;
  })
