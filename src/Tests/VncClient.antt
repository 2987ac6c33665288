-- ===== src/Tests/VncClient.antt =====
-- src/modules/emulation/emulator_core/internal/vnc_client.py at concrete inputs.
use linblock.Prelude.{
  ℕ, ◌*◌, ◌≡◌, ◌↔◌, refl, true, false, none, some, List, [], ◌∷◌, ◌++◌, arith, pos, length, ok,
}
use linblock.Bytes.{zeros, be_bytes}
use linblock.Socket.{Socket, piece, stall}
use linblock.Socket.Ready.{ready}
use linblock.Emulation.VncClient.{
  Client, new_client, Texts, connect, send_pointer, get_framebuffer, rfb_version,
}
use linblock.Emulation.VncClient.Receive.{Rectangle, handle_rectangle}
use linblock.Emulation.VncClient.Handshake.{Server, IsServer, script, greeted, connect_lem}
use linblock.Emulation.VncClient.Updates.{handle_rectangle_lem, send_pointer_bounds}

abbrev server : Server
server = record {
  version = rfb_version;
  types = 2 ∷ 1 ∷ [];
  width = 1080;
  height = 1920;
  format = zeros 16;
  name = b'Q' ∷ b'E' ∷ b'M' ∷ b'U' ∷ [];
}

server-IsServer : IsServer server
server-IsServer = record {
  twelve = refl;
  rfb = refl;
  some_types = omega arith;
  few_types = omega arith;
  no_password = refl;
  wide = omega arith;
  high = omega arith;
  sixteen = refl;
  named = omega arith;
  short_name = omega arith;
}

abbrev texts : Texts
texts = record { invalid_version = λ _. ""; rejected = λ _. none; failed = λ _. "" }

connect_lem_example :
    connect texts (ok (script server [])) new_client ≡ (ok tt, greeted server [] new_client)
connect_lem_example = connect_lem texts server [] new_client server-IsServer

-- One pixel of a screen of two.
abbrev corner : Rectangle
corner = record { x = 1; y = 0; width = 1; height = 1; encoding = 0 }

abbrev arriving : Socket
arriving = piece 1 (2 ∷ []) ∷ piece 3 (4 ∷ 0 ∷ []) ∷ stall ∷ []

abbrev small_screen : Client
small_screen = record {
  socket = some arriving;
  connected = true;
  width = 2;
  height = 1;
  framebuffer = none;
  callback = false;
  frames = [];
  receiving = true;
  stop_event = false;
  sent = [];
}

abbrev pixels : List ℕ
pixels = 1 ∷ 2 ∷ 3 ∷ 4 ∷ []

arriving-ready : ready arriving ≡ pixels ++ 0 ∷ []
unfolding ready
arriving-ready = refl

handle_rectangle_lem_example :
    ((handle_rectangle corner small_screen).0 ≡ ok tt)
    × (get_framebuffer (handle_rectangle corner small_screen).1
        ≡ some (record { width = 2; height = 1; pixels = pixels }))
    × ((length pixels ≡ 2 * 1 * 4) ↔ (corner.width * corner.height ≡ 2 * 1))
    × ((s : Socket) × ((handle_rectangle corner small_screen).1.socket ≡ some s)
        × (ready s ≡ 0 ∷ []))
handle_rectangle_lem_example =
    handle_rectangle_lem corner pixels (0 ∷ []) arriving small_screen refl refl arriving-ready refl

send_pointer_bounds_example :
    send_pointer (pos 300) (pos 7) (pos 1) small_screen
    ≡ (ok tt, record small_screen { sent = 5 ∷ 1 ∷ 1 ∷ 44 ∷ 0 ∷ 7 ∷ [] })
unfolding be_bytes
send_pointer_bounds_example = send_pointer_bounds (pos 300) (pos 7) (pos 1) small_screen refl
