-- ===== src/Emulation/VncClient/Receive.antt =====
-- The receiver thread of `VNCClient`: `_handle_framebuffer_update` and `_receive_loop`, over the number of rounds that
-- it makes before another thread stops it.
use linblock.Prelude.{
  ℕ, zero, suc, ◌*◌, Bool, true, false, ◌&&◌, not, Option, none, some, List, [], ◌∷◌, ◌++◌, length,
  take, drop, nat_beq, if◌then◌else◌, Result, ok, err, ◌>>=◌, ◌>>◌,
}
use linblock.Bytes.{of_be}
use linblock.Socket.{Socket, timeout, os_error}
use linblock.Socket.Fill.{FillError, closed, failed, fill, at_most_64k}
use linblock.Emulation.VncClient.{
  Error, socket_error, struct_error, FrameData, Client, Call, read, enc_raw, enc_desktop_size,
  request_framebuffer,
}

-- A rectangle's header, "!HHHHi". The encoding is the number that its four bytes make without a sign.
pub record Rectangle : Type 0 where
  pub x : ℕ
  pub y : ℕ
  pub width : ℕ
  pub height : ℕ
  pub encoding : ℕ

abbrev pub rectangle_of : List ℕ → Rectangle
rectangle_of bytes = record {
  x = of_be (take 2 bytes);
  y = of_be (take 2 (drop 2 bytes));
  width = of_be (take 2 (drop 4 bytes));
  height = of_be (take 2 (drop 6 bytes));
  encoding = of_be (take 4 (drop 8 bytes));
}

unfoldable pub unpack_rectangle : List ℕ → Call Rectangle
unpack_rectangle bytes c =
    if nat_beq (length bytes) 12 then (ok (rectangle_of bytes), c) else (err struct_error, c)

-- "!xH"
unfoldable pub unpack_count : List ℕ → Call ℕ
unpack_count bytes c =
    if nat_beq (length bytes) 3 then (ok (of_be (drop 1 bytes)), c) else (err struct_error, c)

abbrev pub data_size : Rectangle → ℕ
data_size r = r.width * r.height * 4

-- A rectangle of any place and size becomes the framebuffer.
unfoldable pub update : Rectangle → List ℕ → Client → Client
update r pixels c =
    let notice : FrameData = record { width = r.width; height = r.height; pixels = pixels } in
    let updated = record c { framebuffer = some pixels } in
    if c.callback then record updated { frames = c.frames ++ notice ∷ [] } else updated

-- What the loop of reads gives: the pixels, too few of them at the end of the stream, or an error.
unfoldable pub filled : Rectangle → Result FillError (List ℕ) × Socket → Call Unit
unfolding update
filled r (ok pixels, s) c = (ok tt, update r pixels (record c { socket = some s }))
filled r (err closed, s) c = (ok tt, record c { socket = some s })
filled r (err (failed e), s) c = (err (socket_error e), record c { socket = some s })

unfoldable pub read_pixels : Option Socket → Rectangle → Call Unit
unfolding filled fill
read_pixels none r c = (err (socket_error os_error), c)
read_pixels (some s) r c = filled r (fill at_most_64k (data_size r) (data_size r) [] s) c

unfoldable pub handle_rectangle : Rectangle → Call Unit
unfolding read_pixels
handle_rectangle r c =
    if nat_beq r.encoding enc_raw
    then read_pixels c.socket r c
    else if nat_beq r.encoding enc_desktop_size
    then (ok tt, record c { width = r.width; height = r.height })
    else (ok tt, c)

unfoldable pub one_rectangle : Call Unit
unfolding read unpack_rectangle handle_rectangle
one_rectangle = (read 12 >>= unpack_rectangle) >>= handle_rectangle

unfoldable pub handle_rectangles : ℕ → Call Unit
unfolding one_rectangle
handle_rectangles zero c = (ok tt, c)
handle_rectangles (suc n) c = (one_rectangle >> handle_rectangles n) c

-- `except socket.error: pass`
unfoldable pub ignore_socket_error :
    Result Error (Unit {0}) × Client → Result Error (Unit {0}) × Client
ignore_socket_error (err (socket_error e), c) = (ok tt, c)
ignore_socket_error (ok u, c) = (ok u, c)
ignore_socket_error (err e, c) = (err e, c)

-- `_handle_framebuffer_update`
unfoldable pub handle_framebuffer_update : Call Unit
unfolding read unpack_count handle_rectangles ignore_socket_error
handle_framebuffer_update c =
    ignore_socket_error (((read 3 >>= unpack_count) >>= handle_rectangles) c)

abbrev pub msg_framebuffer_update : ℕ
msg_framebuffer_update = 0

-- How a round ends: the loop goes on, or ends.
unfoldable pub goes_on : Result Error (Unit {0}) × Client → Bool × Client
goes_on (ok u, c) = (true, c)
goes_on (err e, c) = (false, c)

-- A message of another type is skipped, by its first byte only.
unfoldable pub handle_type : Result Error (List ℕ) × Client → Bool × Client
unfolding handle_framebuffer_update goes_on
handle_type (err (socket_error timeout), c) = (true, c)
handle_type (err e, c) = (false, c)
handle_type (ok [], c) = (false, c)
handle_type (ok (msg_type ∷ bytes), c) =
    if nat_beq msg_type msg_framebuffer_update
    then goes_on (handle_framebuffer_update c)
    else (true, c)

unfoldable pub requested : Result Error (Unit {0}) × Client → Bool × Client
unfolding handle_type read
requested (ok u, c) = handle_type (read 1 c)
requested (err e, c) = (false, c)

unfoldable pub receive_round : Client → Bool × Client
unfolding requested request_framebuffer
receive_round c = requested (request_framebuffer false c)

-- `_receive_loop`
unfoldable pub receive_loop : ℕ → Client → Client
unfolding receive_round
receive_loop zero c = c
receive_loop (suc n) c =
    let (go, c') = receive_round c in
    let rest = if go then receive_loop n c' else c' in
    if not c.stop_event && c.connected then rest else c
