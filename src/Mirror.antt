-- ===== src/Mirror.antt =====
-- The state that the device reports, of main/fmb630.h and main/fmb630.c: the packed structs
-- `s_gsm`, `s_io1`, `s_io2`, `s_io4`, `s_io8` and `s_mir`, the variable `mirror`, and
-- `init_mirror`. From `init_mirror` on, the fields of two and more bytes hold their values in
-- network order. A `short` is its 16-bit pattern.
pub mod Laws
use esp_fmb.Prelude.{ℕ, ◌+◌, List, [], ◌∷◌, ◌++◌, Option, none, some}
use esp_fmb.Prelude.Words.{htons, htonl, htobe64, le16, le32, le64}

pub record Gsm : Type 0 where
  pub ts : ℕ
  pub prio : ℕ
  pub longitude : ℕ
  pub latitude : ℕ
  pub altitude : ℕ
  pub angle : ℕ
  pub sattelites : ℕ
  pub speed : ℕ
  pub id_event : ℕ
  pub total_elem : ℕ

pub record GsmInfo : Type 0 where
  pub longitude : ℕ
  pub latitude : ℕ
  pub altitude : ℕ
  pub angle : ℕ
  pub sattelites : ℕ
  pub speed : ℕ

pub record Io1 : Type 0 where
  pub total_len1 : ℕ
  pub id_din1 : ℕ
  pub val_din1 : ℕ
  pub id_din2 : ℕ
  pub val_din2 : ℕ
  pub id_din3 : ℕ
  pub val_din3 : ℕ
  pub id_din4 : ℕ
  pub val_din4 : ℕ
  pub id_dout1 : ℕ
  pub val_dout1 : ℕ
  pub id_dout2 : ℕ
  pub val_dout2 : ℕ
  pub id_dout3 : ℕ
  pub val_dout3 : ℕ
  pub id_dout4 : ℕ
  pub val_dout4 : ℕ
  pub id_pfile : ℕ
  pub val_pfile : ℕ
  pub id_gnss : ℕ
  pub val_gnss : ℕ
  pub id_moves : ℕ
  pub val_moves : ℕ
  pub id_gsml : ℕ
  pub val_gsml : ℕ
  pub id_ignition : ℕ
  pub val_ignition : ℕ

pub record Io2 : Type 0 where
  pub total_len2 : ℕ
  pub id_ain1 : ℕ
  pub val_ain1 : ℕ
  pub id_ain2 : ℕ
  pub val_ain2 : ℕ
  pub id_ain3 : ℕ
  pub val_ain3 : ℕ
  pub id_bvolt : ℕ
  pub val_bvolt : ℕ
  pub id_bcur : ℕ
  pub val_bcur : ℕ
  pub id_evolt : ℕ
  pub val_evolt : ℕ
  pub id_speed : ℕ
  pub val_speed : ℕ

pub record Io4 : Type 0 where
  pub total_len4 : ℕ
  pub id_odo : ℕ
  pub val_odo : ℕ
  pub id_oper : ℕ
  pub val_oper : ℕ
  pub id_todo : ℕ
  pub val_todo : ℕ

pub record Mir : Type 0 where
  pub gsm : Gsm
  pub io1 : Io1
  pub io2 : Io2
  pub io4 : Io4
  -- `s_io8`, which is its one field.
  pub total_len8 : ℕ

-- The initial value of `mirror`, in the order of the processor.
unfoldable pub mirror : Mir
mirror = record {
  gsm = record {
    ts = 0x16493094298;
    prio = 0;
    longitude = 0x0c3a4548;
    latitude = 0x209a9758;
    altitude = 8;
    angle = 0;
    sattelites = 3;
    speed = 0;
    id_event = 0;
    total_elem = 23;
  };
  io1 = record {
    total_len1 = 13;
    id_din1 = 1;
    val_din1 = 0;
    id_din2 = 2;
    val_din2 = 1;
    id_din3 = 3;
    val_din3 = 1;
    id_din4 = 4;
    val_din4 = 1;
    id_dout1 = 179;
    val_dout1 = 0;
    id_dout2 = 180;
    val_dout2 = 0;
    id_dout3 = 50;
    val_dout3 = 0;
    id_dout4 = 51;
    val_dout4 = 0;
    id_pfile = 22;
    val_pfile = 3;
    id_gnss = 71;
    val_gnss = 3;
    id_moves = 240;
    val_moves = 0;
    id_gsml = 21;
    val_gsml = 4;
    id_ignition = 239;
    val_ignition = 0;
  };
  io2 = record {
    total_len2 = 7;
    id_ain1 = 9;
    val_ain1 = 750;
    id_ain2 = 10;
    val_ain2 = 21;
    id_ain3 = 11;
    val_ain3 = 1500;
    id_bvolt = 67;
    val_bvolt = 9925;
    id_bcur = 68;
    val_bcur = 50;
    id_evolt = 66;
    val_evolt = 12044;
    id_speed = 24;
    val_speed = 0;
  };
  io4 = record {
    total_len4 = 3;
    id_odo = 199;
    val_odo = 0;
    id_oper = 241;
    val_oper = 25099;
    id_todo = 216;
    val_todo = 0;
  };
  total_len8 = 0;
}

abbrev given : Option ℕ → ℕ → ℕ
given none own = own
given (some v) own = v

-- `init_mirror(lat, lon)`; `none` is a null pointer.
unfoldable pub init_mirror : Option ℕ → Option ℕ → Mir → Mir
init_mirror lat lon m =
    let g = m.gsm in
    let a = m.io2 in
    let o = m.io4 in
    record m {
      gsm = record g {
        ts = htobe64 g.ts;
        longitude = htonl (given lon g.longitude);
        latitude = htonl (given lat g.latitude);
        altitude = htons g.altitude;
        angle = htons g.angle;
        speed = htons g.speed;
      };
      io2 = record a {
        val_ain1 = htons a.val_ain1;
        val_ain2 = htons a.val_ain2;
        val_ain3 = htons a.val_ain3;
        val_bvolt = htons a.val_bvolt;
        val_bcur = htons a.val_bcur;
        val_evolt = htons a.val_evolt;
        val_speed = htons a.val_speed;
      };
      io4 = record o {
        val_odo = htonl o.val_odo;
        val_oper = htonl o.val_oper;
        val_todo = htonl o.val_todo;
      };
    }

-- `memcpy` of `s_gsm_info` from the fields of the same names.
abbrev pub info_of : Gsm → GsmInfo
info_of g = record {
  longitude = g.longitude;
  latitude = g.latitude;
  altitude = g.altitude;
  angle = g.angle;
  sattelites = g.sattelites;
  speed = g.speed;
}

-- The bytes of the packed structs.
gsm_bytes : Gsm → List ℕ
gsm_bytes g =
    le64 g.ts
    ++ (g.prio ∷ le32 g.longitude)
    ++ le32 g.latitude
    ++ le16 g.altitude
    ++ le16 g.angle
    ++ (g.sattelites ∷ le16 g.speed)
    ++ (g.id_event ∷ g.total_elem ∷ [])

io1_bytes : Io1 → List ℕ
io1_bytes i =
    i.total_len1 ∷ i.id_din1 ∷ i.val_din1 ∷ i.id_din2 ∷ i.val_din2 ∷ i.id_din3 ∷ i.val_din3
    ∷ i.id_din4 ∷ i.val_din4 ∷ i.id_dout1 ∷ i.val_dout1 ∷ i.id_dout2 ∷ i.val_dout2 ∷ i.id_dout3
    ∷ i.val_dout3 ∷ i.id_dout4 ∷ i.val_dout4 ∷ i.id_pfile ∷ i.val_pfile ∷ i.id_gnss ∷ i.val_gnss
    ∷ i.id_moves ∷ i.val_moves ∷ i.id_gsml ∷ i.val_gsml ∷ i.id_ignition ∷ i.val_ignition ∷ []

io2_bytes : Io2 → List ℕ
io2_bytes i =
    i.total_len2 ∷ i.id_ain1 ∷ le16 i.val_ain1
    ++ (i.id_ain2 ∷ le16 i.val_ain2)
    ++ (i.id_ain3 ∷ le16 i.val_ain3)
    ++ (i.id_bvolt ∷ le16 i.val_bvolt)
    ++ (i.id_bcur ∷ le16 i.val_bcur)
    ++ (i.id_evolt ∷ le16 i.val_evolt)
    ++ (i.id_speed ∷ le16 i.val_speed)

io4_bytes : Io4 → List ℕ
io4_bytes i =
    i.total_len4 ∷ i.id_odo ∷ le32 i.val_odo
    ++ (i.id_oper ∷ le32 i.val_oper)
    ++ (i.id_todo ∷ le32 i.val_todo)

unfoldable pub mir_bytes : Mir → List ℕ
unfolding gsm_bytes io1_bytes io2_bytes io4_bytes
mir_bytes m =
    gsm_bytes m.gsm
    ++ (io1_bytes m.io1 ++ (io2_bytes m.io2 ++ (io4_bytes m.io4 ++ m.total_len8 ∷ [])))
