-- ===== src/Mirror/Laws.antt =====
-- The layout of the reported state.
use esp_fmb.Prelude.{ℕ, ◌<◌, ◌≡◌, refl, length, arith, Option}
use esp_fmb.Prelude.Words.{htons, htonl, be16_at, be32_at}
use esp_fmb.Crc.Reference.{AllBytes}
use esp_fmb.Mirror.{Mir, mirror, init_mirror, mir_bytes}

pub length-mir_bytes : (m : Mir) → length (mir_bytes m) ≡ 92
unfolding mir_bytes
length-mir_bytes m = refl

-- The fields that take one byte hold bytes.
pub record IsBytes (m : Mir) : Type 0 where
  pub gsm :
      (m.gsm.prio < 256)
      × (m.gsm.sattelites < 256)
      × (m.gsm.id_event < 256)
      × (m.gsm.total_elem < 256)
  pub ids1 :
      (m.io1.total_len1 < 256)
      × (m.io1.id_din1 < 256)
      × (m.io1.id_din2 < 256)
      × (m.io1.id_din3 < 256)
      × (m.io1.id_din4 < 256)
      × (m.io1.id_dout1 < 256)
      × (m.io1.id_dout2 < 256)
      × (m.io1.id_dout3 < 256)
      × (m.io1.id_dout4 < 256)
      × (m.io1.id_pfile < 256)
      × (m.io1.id_gnss < 256)
      × (m.io1.id_moves < 256)
      × (m.io1.id_gsml < 256)
      × (m.io1.id_ignition < 256)
  pub vals1 :
      (m.io1.val_din1 < 256)
      × (m.io1.val_din2 < 256)
      × (m.io1.val_din3 < 256)
      × (m.io1.val_din4 < 256)
      × (m.io1.val_dout1 < 256)
      × (m.io1.val_dout2 < 256)
      × (m.io1.val_dout3 < 256)
      × (m.io1.val_dout4 < 256)
      × (m.io1.val_pfile < 256)
      × (m.io1.val_gnss < 256)
      × (m.io1.val_moves < 256)
      × (m.io1.val_gsml < 256)
      × (m.io1.val_ignition < 256)
  pub ids2 :
      (m.io2.total_len2 < 256)
      × (m.io2.id_ain1 < 256)
      × (m.io2.id_ain2 < 256)
      × (m.io2.id_ain3 < 256)
      × (m.io2.id_bvolt < 256)
      × (m.io2.id_bcur < 256)
      × (m.io2.id_evolt < 256)
      × (m.io2.id_speed < 256)
  pub ids4 :
      (m.io4.total_len4 < 256)
      × (m.io4.id_odo < 256)
      × (m.io4.id_oper < 256)
      × (m.io4.id_todo < 256)
      × (m.total_len8 < 256)

pub mir_bytes-AllBytes : (m : Mir) → IsBytes m → AllBytes (mir_bytes m)
unfolding mir_bytes
mir_bytes-AllBytes m v = omega arith

-- In the bytes of a sample the words of four bytes at 9 and 13, read the highest byte first, are the
-- longitude and the latitude, and the words of two bytes at 17, 19 and 22 are the altitude, the
-- angle and the speed, each converted from network order.
pub mir_bytes_position :
    (m : Mir)
    → (be32_at (mir_bytes m) 9 ≡ htonl m.gsm.longitude)
      × (be32_at (mir_bytes m) 13 ≡ htonl m.gsm.latitude)
      × (be16_at (mir_bytes m) 17 ≡ htons m.gsm.altitude)
      × (be16_at (mir_bytes m) 19 ≡ htons m.gsm.angle)
      × (be16_at (mir_bytes m) 22 ≡ htons m.gsm.speed)
unfolding mir_bytes htonl htons
mir_bytes_position m = (refl, refl, omega arith, omega arith, omega arith)

pub mirror-IsBytes : (lat lon : Option ℕ) → IsBytes (init_mirror lat lon mirror)
unfolding init_mirror mirror
mirror-IsBytes lat lon = omega arith
