-- ===== src/Emulation/GpuRenderer/Worker.antt =====
-- internal/renderer_worker.py: `RendererWorker` and its shared memory. The file system's regions and
-- the bytes that were sent to the parent are part of the state. Sends go through. The sandbox that
-- the worker enters is a call of the operating system that changes nothing here.
pub mod Handlers
pub mod Loop
pub mod Sizes
pub mod Serving
pub mod Resizing
pub mod Frames
pub mod Failing
use linblock.Prelude.{
  ℕ, ◌+◌, ◌*◌, ◌%◌, String, string_eq, ◌==◌, Bool, true, false, ◌&&◌, not, Option, none, some, List,
  [], ◌++◌, ℤ, length, take, leb, ltb, nat_beq, is_some, if◌then◌else◌, Result, ok, err, Method,
}
use linblock.Emulation.GpuRenderer.Header.{header_size, frame_header, pack}
use linblock.Emulation.GpuRenderer.Region.{
  Shm, with_contents, unlink, create_region, splice, write_front,
}
use linblock.Emulation.GpuRenderer.Message.{encode}
use linblock.Emulation.GpuRenderer.Picture.{gradient}

-- What the handlers catch: `OSError`, `struct.error`, `ValueError` of a closed map, `IndexError` of a
-- slice that does not fit, and the two that they raise.
pub data Error : Type 0 where
  os_error struct_error map_closed wrong_size : Error
  gpu_failed : ℤ → Error
  invalid_rotation : ℕ → Error

-- How far `_setup_shared_memory` gets after the unlink.
pub data Setup : Type 0 where
  open_fails size_fails map_fails granted : Setup

-- `ctypes.CDLL`: the file cannot be loaded, lacks a function, or is loaded.
pub data Loading : Type 0 where
  refused incomplete loaded : Loading

-- What the system and the native library answer while a message is handled; `init` is none where the
-- call raises. `text` is `str(e).encode()`.
pub record Host : Type 0 where
  pub exists : String → Bool
  pub loading : Loading
  pub init : ℕ → ℕ → Option ℤ
  pub commands : List ℕ → ℤ
  pub unlinks : Bool
  pub setup : Setup
  pub now : ℕ
  pub text : Error → List ℕ

-- `_shm_mmap`: None, a map of a region, or a map that was closed.
pub data Mapping : Type 0 where
  absent : Mapping
  mapped : (region : ℕ) → Mapping
  closed : Mapping

-- `_shm_fd`
pub data Descriptor : Type 0 where
  none_yet opened shut : Descriptor

-- `lib` and `context` say whether these are set.
pub record Worker : Type 0 where
  pub width : ℕ
  pub height : ℕ
  pub library_path : String
  pub lib : Bool
  pub context : Bool
  pub descriptor : Descriptor
  pub mapping : Mapping
  pub frame_number : ℕ
  pub running : Bool
  pub use_stub : Bool
  pub shm : Shm
  pub sent : List ℕ

abbrev pub Call : Type 0 → Type 0
Call A = Method Error Worker A

unfoldable pub new_worker : ℕ → ℕ → String → Shm → Worker
new_worker width height library_path shm = record {
  width = width;
  height = height;
  library_path = library_path;
  lib = false;
  context = false;
  descriptor = none_yet;
  mapping = absent;
  frame_number = 0;
  running = true;
  use_stub = true;
  shm = shm;
  sent = [];
}

-- `_load_native_library`
unfoldable pub load_native_library : Host → Worker → Bool × Worker
load_native_library host w =
    if w.library_path == ""
    then (false, w)
    else if not (host.exists w.library_path)
    then (false, w)
    else elim host.loading [
      | refused ↦ (false, w)
      | incomplete ↦ (false, record w { lib = true })
      | loaded ↦ (true, record w { lib = true })
    ]

abbrev pub is_zero : Option ℤ → Bool
is_zero (some (ℤ.pos n)) = nat_beq n 0
is_zero _ = false

-- `_init_native_renderer`
unfoldable pub init_native_renderer : Host → Worker → Bool × Worker
init_native_renderer host w =
    if not w.lib
    then (false, w)
    else if is_zero (host.init w.width w.height)
    then (true, record w { context = true })
    else (false, w)

abbrev pub memory_size : Worker → ℕ
memory_size w = header_size + w.width * 4 * w.height

-- The initial header, in the new map.
unfoldable pub write_header : Option (List ℕ) → ℕ → Call Unit
write_header none region w = (err struct_error, w)
write_header (some header) region w = (
  ok tt,
  record w { shm = with_contents region (write_front header (w.shm.contents region)) w.shm },
)

unfoldable pub create_memory : Setup → Call Unit
unfolding write_header
create_memory open_fails w = (err os_error, record w { shm = unlink w.shm })
create_memory size_fails w =
    let (region, s) = create_region 0 (unlink w.shm) in
    (err os_error, record w { descriptor = opened; shm = s })
create_memory map_fails w =
    let (region, s) = create_region (memory_size w) (unlink w.shm) in
    (err os_error, record w { descriptor = opened; shm = s })
create_memory granted w =
    let (region, s) = create_region (memory_size w) (unlink w.shm) in
    write_header (pack (frame_header w.width w.height 0 0)) region
      (record w { descriptor = opened; mapping = mapped region; shm = s })

-- `_setup_shared_memory`
unfoldable pub setup_shared_memory : Host → Call Unit
unfolding create_memory
setup_shared_memory host w =
    if is_some w.shm.name && not host.unlinks then (err os_error, w) else create_memory host.setup w

-- The assignments to two slices of the map: each must fit.
abbrev pub put_frame : List ℕ → List ℕ → ℕ → Call Unit
put_frame header pixel_data region w =
    let bytes = w.shm.contents region in
    let headed = write_front header bytes in
    if ltb (length bytes) header_size
    then (err wrong_size, w)
    else if ltb (length bytes) (header_size + length pixel_data)
    then (err wrong_size, record w { shm = with_contents region headed w.shm })
    else (
      ok tt,
      record w { shm = with_contents region (splice header_size pixel_data headed) w.shm },
    )

abbrev pub pixel_data : List ℕ → Worker → List ℕ
pixel_data pixels w =
    let expected = w.width * w.height * 4 in
    if leb expected (length pixels) then take expected pixels else pixels

unfoldable pub write_packed : Option (List ℕ) → List ℕ → ℕ → Call Unit
write_packed none pixels region w = (err struct_error, w)
write_packed (some header) pixels region w = put_frame header (pixel_data pixels w) region w

unfoldable pub write_mapping : Mapping → Host → List ℕ → Call Unit
unfolding write_packed
write_mapping absent host pixels w = (ok tt, w)
write_mapping closed host pixels w = (err map_closed, w)
write_mapping (mapped region) host pixels w =
    let w' = record w { frame_number = w.frame_number + 1 } in
    write_packed (pack (frame_header w.width w.height w'.frame_number host.now)) pixels region w'

-- `_write_frame`: a test of a closed map raises.
unfoldable pub write_frame : Host → List ℕ → Call Unit
unfolding write_mapping
write_frame host pixels w = write_mapping w.mapping host pixels w

-- `_generate_stub_frame`
unfoldable pub generate_stub_frame : Worker → List ℕ
generate_stub_frame w = gradient w.width w.height (w.frame_number * 2 % 256)

-- `_send_response`
unfoldable pub send_response : ℕ → List ℕ → Worker → Worker
send_response status d w = record w { sent = w.sent ++ encode status d }
