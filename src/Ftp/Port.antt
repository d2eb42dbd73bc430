-- ===== src/Ftp/Port.antt =====
-- `openPort` of main/ftp_cli.c: the socket of a data connection. `sscanf_u6` is `sscanf` with six
-- `%u`, with whatever stands in the variables that it does not set.
use esp_fmb.Prelude.{
  ℕ, ◌%◌, ◌^◌, ◌-◌, replicate, Bool, true, false, not, ◌||◌, Option, none, some, List, [], ◌∷◌,
  ◌++◌, ◌==◌, length, get_or, overlay,
}
use esp_fmb.Prelude.Text.{codes, strchr, cut_at, print_u}
use esp_fmb.Ftp.Buf.{control, reading, writing, Dir, NetBuf, Ctl}
use esp_fmb.Ftp.Reply.{send_command}
use esp_fmb.Ftp.World.{World, ask, socket, closesocket, alloc, free, peer, Step}

-- `FTP_CLIENT_ASCII` and `FTP_CLIENT_IMAGE`.
abbrev pub ascii : ℕ
ascii = b'A'

abbrev pub image : ℕ
image = b'I'

-- `sprintf` or `strcpy` into `response`.
abbrev pub say : List ℕ → Ctl → Ctl
say s c = record c { response = overlay (s ++ 0 ∷ []) c.response }

-- `strncpy` into `response`, which fills it with 0.
abbrev pub fill : List ℕ → Ctl → Ctl
fill s c = record c { response = s ++ replicate (length c.response - length s) 0 }

-- The new `NetBuf`. In active mode its peer is replaced by that of the accepted connection.
abbrev pub new_buf : ℕ → Dir → Bool → World → NetBuf × World
new_buf h dir text w =
    let (p, v) = peer w in
    (
      record {
        handle = h;
        dir = dir;
        text = text;
        avail = [];
        recvs = p.recvs;
        sends = p.sends;
        sent = [];
      },
      v,
    )

abbrev pub Opened : Type 0
Opened = Step (Option NetBuf)

-- The buffer of a connection for text.
abbrev pub with_buffer : ℕ → Dir → Ctl → Bool × World → Opened
with_buffer h dir c (true, w) = let (b, v) = new_buf h dir true w in some (some b, c, v)
with_buffer h dir c (false, w) = some (none, c, free (closesocket h w))

abbrev pub if_ascii : Bool → ℕ → Dir → Ctl → World → Opened
if_ascii true h dir c w = with_buffer h dir c (alloc w)
if_ascii false h dir c w = let (b, v) = new_buf h dir false w in some (some b, c, v)

abbrev pub with_netbuf : ℕ → ℕ → Dir → Ctl → Bool × World → Opened
with_netbuf h mode dir c (false, w) = some (none, c, closesocket h w)
with_netbuf h mode dir c (true, w) = if_ascii (mode == ascii) h dir c w

-- What both modes end with.
unfoldable pub made_buf : ℕ → ℕ → Dir → Ctl → World → Opened
made_buf h mode dir c w = with_netbuf h mode dir c (alloc w)

abbrev pub if_connected : ℕ → ℕ → Dir → Ctl → Bool × World → Opened
if_connected h mode dir c (true, w) = made_buf h mode dir c w
if_connected h mode dir c (false, w) = some (none, c, closesocket h w)

abbrev pub dial : List ℕ → World → World
dial addr w = record w { dialled = addr ∷ w.dialled }

abbrev pub if_socket : (ℕ → World → Opened) → Ctl → Option ℕ × World → Opened
if_socket k c (none, w) = some (none, c, w)
if_socket k c (some h, w) = k h w

-- `sa_data`: the port, then the address.
abbrev pub sa_data : List ℕ → List ℕ
sa_data [] = []
sa_data (v ∷ vs) = v % 2 ^ 8 ∷ sa_data vs

module _ (sscanf_u6 : List ℕ → List ℕ) where
  abbrev pub passive_address : Option (List ℕ × List ℕ) → Option (List ℕ)
  passive_address none = none
  passive_address (some (before, behind)) =
      let u = sscanf_u6 behind in
      some (
        sa_data (
          get_or u 4 0
          ∷ get_or u 5 0
          ∷ get_or u 0 0
          ∷ get_or u 1 0
          ∷ get_or u 2 0
          ∷ get_or u 3 0
          ∷ []))

  abbrev pub connect_to : ℕ → Dir → Ctl → World → Option (List ℕ) → Opened
  connect_to mode dir c w none = some (none, c, w)
  connect_to mode dir c w (some addr) =
      if_socket (λ h v. if_connected h mode dir c (ask (dial addr v))) c (socket w)

  abbrev pub if_pasv : ℕ → Dir → World → Option (Bool × Ctl) → Opened
  if_pasv mode dir w none = none
  if_pasv mode dir w (some (false, c)) = some (none, c, w)
  if_pasv mode dir w (some (true, c)) =
      connect_to mode dir c w (passive_address (strchr (cut_at 0 c.response).0 b'('))

  unfoldable pub open_passive : ℕ → Dir → Ctl → World → Opened
  open_passive mode dir c w = if_pasv mode dir w (send_command (codes "PASV") b'2' c)

-- The text of the PORT command, from the port and the address of the listening socket.
abbrev pub port_text : List ℕ → List ℕ
port_text a =
    let field = λ (i : ℕ). print_u (get_or a i 0) in
    codes "PORT "
    ++ (field 2
        ++ b',' ∷ field 3
        ++ b',' ∷ field 4
        ++ b',' ∷ field 5
        ++ b',' ∷ field 0
        ++ b',' ∷ field 1)

-- A call that fails closes the listening socket.
abbrev pub or_close : ℕ → Ctl → (World → Opened) → Bool × World → Opened
or_close h c k (true, w) = k w
or_close h c k (false, w) = some (none, c, closesocket h w)

-- The second `getsockname` does not.
abbrev pub or_leave : Ctl → (World → Opened) → Bool × World → Opened
or_leave c k (true, w) = k w
or_leave c k (false, w) = some (none, c, w)

abbrev pub if_port : ℕ → ℕ → Dir → World → Option (Bool × Ctl) → Opened
if_port h mode dir w none = none
if_port h mode dir w (some (true, c)) = made_buf h mode dir c w
if_port h mode dir w (some (false, c)) = some (none, c, closesocket h w)

abbrev pub listen_on : ℕ → Dir → Ctl → ℕ → World → Opened
listen_on mode dir c h w =
    let named = λ (v : World). if_port h mode dir v (send_command (port_text v.sockname) b'2' c) in
    let listening = λ (v : World). or_leave c named (ask v) in
    let bound = λ (v : World). or_close h c listening (ask v) in or_close h c bound (ask w)

unfoldable pub open_active : ℕ → Dir → Ctl → World → Opened
open_active mode dir c w = or_leave c (λ v. if_socket (listen_on mode dir c) c (socket v)) (ask w)

abbrev pub is_data : Dir → Bool
is_data control = false
is_data reading = true
is_data writing = true

module _ (sscanf_u6 : List ℕ → List ℕ) where
  abbrev pub by_mode : Bool → ℕ → Dir → Ctl → World → Opened
  by_mode true mode dir c w = open_passive sscanf_u6 mode dir c w
  by_mode false mode dir c w = open_active mode dir c w

  abbrev pub checked : Bool → Bool → Bool → ℕ → Dir → Ctl → World → Opened
  checked false d m mode dir c w = some (none, c, w)
  checked true false m mode dir c w =
      some (none, say (codes "Invalid direction 0" ++ b'\n' ∷ []) c, w)
  checked true true false mode dir c w =
      some (none, say (codes "Invalid mode " ++ mode ∷ b'\n' ∷ []) c, w)
  checked true true true mode dir c w = by_mode c.passive mode dir c w

  unfoldable pub open_port : ℕ → Dir → Ctl → World → Opened
  open_port mode dir c w =
      checked (not (is_data c.buf.dir)) (is_data dir) ((mode == ascii) || (mode == image)) mode dir
        c w
