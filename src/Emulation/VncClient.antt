-- ===== src/Emulation/VncClient.antt =====
-- src/modules/emulation/emulator_core/internal/vnc_client.py: `VNCClient`. What the server sends is the
-- socket that a connection gives, and the client's own sends go through. A callback raises nothing
-- that is seen: `frames` is what it has been told.
pub mod Receive
pub mod Handshake
pub mod Updates
use linblock.Prelude.{
  ℕ, ◌^◌, String, Bool, true, false, ◌&&◌, not, Option, none, some, List, [], ◌∷◌, ◌++◌, ℤ, pos,
  length, take, drop, nat_beq, is_some, if◌then◌else◌, Result, ok, err, Method, ◌>>=◌, ◌>>◌,
}
use linblock.Bytes.{be_bytes, of_be, pack_be}
use linblock.Socket.{Socket, SocketError, os_error, recv}

-- VNCError, `socket.error`, `struct.error`, and a reason that is no text.
pub data Error : Type 0 where
  vnc_error : String → Error
  socket_error : SocketError → Error
  struct_error : Error
  decode_error : Error

-- Its format is always "bgra".
pub record FrameData : Type 0 where
  pub width : ℕ
  pub height : ℕ
  pub pixels : List ℕ

-- `socket` is what is still to be read; `receiving` says whether there is a receiver thread.
pub record Client : Type 0 where
  pub socket : Option Socket
  pub connected : Bool
  pub width : ℕ
  pub height : ℕ
  pub framebuffer : Option (List ℕ)
  pub callback : Bool
  pub frames : List FrameData
  pub receiving : Bool
  pub stop_event : Bool
  pub sent : List ℕ

abbrev pub Call : Type 0 → Type 0
Call A = Method Error Client A

unfoldable pub new_client : Client
new_client = record {
  socket = none;
  connected = false;
  width = 0;
  height = 0;
  framebuffer = none;
  callback = false;
  frames = [];
  receiving = false;
  stop_event = false;
  sent = [];
}

unfoldable pub set_frame_callback : Client → Client
set_frame_callback c = record c { callback = true }

-- `disconnect`
unfoldable pub disconnect : Client → Client
disconnect c = record c { stop_event = true; connected = false; socket = none; receiving = false }

unfoldable pub cleanup : Client → Client
unfolding disconnect
cleanup c = record (disconnect c) { callback = false }

-- What a read of the socket gives; without one there is an `AttributeError`, which does not happen in
-- the calls below.
unfoldable pub received :
    Client → Result SocketError (List ℕ) × Socket → Result Error (List ℕ) × Client
received c (ok bytes, s) = (ok bytes, record c { socket = some s })
received c (err e, s) = (err (socket_error e), record c { socket = some s })

unfoldable pub read_from : Option Socket → ℕ → Call (List ℕ)
unfolding received recv
read_from none n c = (err (socket_error os_error), c)
read_from (some s) n c = received c (recv n s)

-- `self._socket.recv(n)`
unfoldable pub read : ℕ → Call (List ℕ)
unfolding read_from
read n c = read_from c.socket n c

-- `self._socket.send(bytes)`
unfoldable pub send : List ℕ → Call Unit
send bytes c = (ok tt, record c { sent = c.sent ++ bytes })

-- struct.unpack of one number of that many bytes.
unfoldable pub unpack : ℕ → List ℕ → Call ℕ
unpack w bytes c = if nat_beq (length bytes) w then (ok (of_be bytes), c) else (err struct_error, c)

abbrev pub starts_rfb : List ℕ → Bool
starts_rfb (a ∷ b ∷ c ∷ d ∷ bytes) =
    nat_beq a b'R' && (nat_beq b b'F' && (nat_beq c b'B' && nat_beq d b' '))
starts_rfb bytes = false

-- b"RFB 003.008\n"
abbrev pub rfb_version : List ℕ
rfb_version = b'R' ∷ b'F' ∷ b'B' ∷ b' ' ∷ b'0' ∷ b'0' ∷ b'3' ∷ b'.' ∷ b'0' ∷ b'0' ∷ b'8' ∷ 10 ∷ []

abbrev pub sec_none : ℕ
sec_none = 1

abbrev pub member : ℕ → List ℕ → Bool
member n [] = false
member n (b ∷ bs) = let rest = member n bs in if nat_beq b n then true else rest

-- How the program writes bytes in a message, and reads a reason from them.
pub record Texts : Type 0 where
  pub invalid_version : List ℕ → String
  pub rejected : List ℕ → Option String
  pub failed : SocketError → String

unfoldable pub check_version : Texts → List ℕ → Call Unit
check_version texts version c =
    if starts_rfb version then (ok tt, c) else (err (vnc_error (texts.invalid_version version)), c)

unfoldable pub raise_rejected : Option String → Call (Unit {0})
raise_rejected none c = (err decode_error, c)
raise_rejected (some text) c = (err (vnc_error text), c)

-- The reason for which a server offers no security type.
unfoldable pub rejected : Texts → Call Unit
unfolding read unpack raise_rejected
rejected texts =
    ((read 4 >>= unpack 4) >>= read) >>= (λ reason. raise_rejected (texts.rejected reason))

unfoldable pub choose_type : List ℕ → Call Unit
unfolding send
choose_type sec_types c =
    if member sec_none sec_types
    then send (sec_none ∷ []) c
    else (err (vnc_error "Server requires authentication (not supported)"), c)

unfoldable pub agree_security : Texts → ℕ → Call Unit
unfolding rejected choose_type read
agree_security texts num_sec_types c =
    if nat_beq num_sec_types 0 then rejected texts c else (read num_sec_types >>= choose_type) c

unfoldable pub check_result : ℕ → Call Unit
check_result result c =
    if nat_beq result 0 then (ok tt, c) else (err (vnc_error "Security handshake failed"), c)

-- The size, when there are the four bytes for it, and the length of the name.
unfoldable pub server_init : List ℕ → Call ℕ
unfolding unpack
server_init init_data c =
    if nat_beq (length (take 4 init_data)) 4
    then unpack 4 (take 4 (drop 20 init_data))
        (record c { width = of_be (take 2 init_data); height = of_be (take 2 (drop 2 init_data)) })
    else (err struct_error, c)

-- `_set_pixel_format`: "!BBBBBBBBHHHBBBxxx"
abbrev pub pixel_format : List ℕ
pixel_format =
    0 ∷ 0 ∷ 0 ∷ 0 ∷ 32 ∷ 24 ∷ 0 ∷ 1 ∷ 0 ∷ 255 ∷ 0 ∷ 255 ∷ 0 ∷ 255 ∷ 16 ∷ 8 ∷ 0 ∷ 0 ∷ 0 ∷ 0 ∷ []

abbrev pub enc_raw : ℕ
enc_raw = 0

-- -223 as it stands in four bytes.
abbrev pub enc_desktop_size : ℕ
enc_desktop_size = 0xffff_ff21

-- `_set_encodings`
abbrev pub encodings : List ℕ
encodings = 2 ∷ 0 ∷ 0 ∷ 2 ∷ 0 ∷ 0 ∷ 0 ∷ 0 ∷ 0xff ∷ 0xff ∷ 0xff ∷ 0x21 ∷ []

unfoldable pub finish : Call Unit
unfolding send
finish = (send pixel_format >> send encodings) >> λ c.
    (ok tt, record c { connected = true; stop_event = false; receiving = true })

-- The `try` of `connect`, once the connection is made.
unfoldable pub handshake : Texts → Call Unit
unfolding read send unpack check_version agree_security check_result server_init finish
handshake texts =
    (((((((((read 12 >>= check_version texts) >> send rfb_version) >> (read 1 >>= unpack 1))
                >>= agree_security texts)
              >> (read 4 >>= unpack 4))
            >>= check_result)
          >> send (1 ∷ []))
        >> (read 24 >>= server_init))
      >>= read)
    >> finish

-- `except socket.error`: any other exception passes.
unfoldable pub connected_or_not :
    Texts → Result Error (Unit {0}) × Client → Result Error (Unit {0}) × Client
unfolding disconnect
connected_or_not texts (err (socket_error e), c) = (err (vnc_error (texts.failed e)), disconnect c)
connected_or_not texts (ok u, c) = (ok u, c)
connected_or_not texts (err (vnc_error text), c) = (err (vnc_error text), c)
connected_or_not texts (err struct_error, c) = (err struct_error, c)
connected_or_not texts (err decode_error, c) = (err decode_error, c)

-- A connection that is refused leaves a socket from which nothing is read.
unfoldable pub connect : Texts → Result SocketError Socket → Call Unit
unfolding handshake connected_or_not
connect texts (err e) c =
    connected_or_not texts (err (socket_error e), record c { socket = some [] })
connect texts (ok s) c = connected_or_not texts (handshake texts (record c { socket = some s }))

-- struct.pack of several fields.
unfoldable pub both : Option (List ℕ) → Option (List ℕ) → Option (List ℕ)
both none o = none
both (some a) none = none
both (some a) (some b) = some (a ++ b)

abbrev pub byte : ℕ → Option (List ℕ)
byte n = some (n ∷ [])

unfoldable pub send_packed : Option (List ℕ) → Call Unit
unfolding send
send_packed none c = (err struct_error, c)
send_packed (some bytes) c = send bytes c

-- Nothing is sent before the connection, nor after it.
unfoldable pub send_connected : Option (List ℕ) → Call Unit
unfolding send_packed
send_connected message c =
    if c.connected && is_some c.socket then send_packed message c else (ok tt, c)

abbrev pub flag : Bool → ℕ
flag true = 1
flag false = 0

-- "!BBHHHH"
unfoldable pub request_framebuffer : Bool → Call Unit
unfolding both pack_be send_connected
request_framebuffer incremental c =
    send_connected
      (both (byte 3) (
        both (byte (flag incremental)) (
          both (some (0 ∷ 0 ∷ 0 ∷ 0 ∷ []))
            (both (pack_be 2 (pos c.width)) (pack_be 2 (pos c.height))))))
      c

-- "!BBxxI"
unfoldable pub send_key : ℤ → Bool → Call Unit
unfolding both pack_be send_connected
send_key keycode down =
    send_connected
      (both (byte 4) (both (byte (flag down)) (both (some (0 ∷ 0 ∷ [])) (pack_be 4 keycode))))

-- "!BBHH"
unfoldable pub send_pointer : ℤ → ℤ → ℤ → Call Unit
unfolding both pack_be send_connected
send_pointer x y buttons =
    send_connected (both (byte 5) (both (pack_be 1 buttons) (both (pack_be 2 x) (pack_be 2 y))))

unfoldable pub shown : Option (List ℕ) → Client → Option FrameData
shown none c = none
shown (some bytes) c = some (record { width = c.width; height = c.height; pixels = bytes })

unfoldable pub get_framebuffer : Client → Option FrameData
unfolding shown
get_framebuffer c = shown c.framebuffer c
