-- ===== src/Emulation/GpuRenderer/ShmDisplay.antt =====
-- internal/shm_display.py: `SharedMemoryDisplay`. The operating system's part (whether a call raises
-- `OSError`) is an argument. The callback, which nothing calls, is left out.
pub mod Transfer
use linblock.Prelude.{
  ℕ, ◌+◌, ◌*◌, Bool, true, false, ◌&&◌, Option, none, some, List, [], ◌∷◌, length, take, leb, ltb,
  nat_beq, not, if◌then◌else◌, Result, ok, err,
}
use linblock.Emulation.GpuRenderer.Header.{
  ShmHeader, shm_magic, header_size, frame_header, pack, unpack,
}
use linblock.Emulation.GpuRenderer.Region.{
  Shm, with_contents, unlink, create_region, splice, write_front, slice,
}

-- RuntimeError, struct.error, the error of mapping an empty file, IndexError of a slice that does not fit
-- the map, and TypeError of a map that is only for reading.
pub data Error : Type 0 where
  runtime_error struct_error empty_file wrong_size read_only : Error

-- `region` is what `_mmap` maps, and `writable` how; `size` is `_size`.
pub record ShmDisplay : Type 0 where
  pub region : Option ℕ
  pub writable : Bool
  pub size : ℕ
  pub width : ℕ
  pub height : ℕ
  pub last_frame_number : ℕ

abbrev pub Call : Type 0 → Type 0
Call A = ShmDisplay → Shm → Result Error A × (ShmDisplay × Shm)

unfoldable pub new_display : ShmDisplay
new_display = record {
  region = none;
  writable = false;
  size = 0;
  width = 0;
  height = 0;
  last_frame_number = 0;
}

-- `cleanup` unlinks the name, whoever has made the region.
unfoldable pub cleanup : ShmDisplay → Shm → ShmDisplay × Shm
cleanup d s = (record d { region = none }, unlink s)

-- The header of a new region, which is mapped before `struct.pack` may raise.
unfoldable pub write_header :
    ShmDisplay → ℕ → Option (List ℕ) → Shm → Result Error (Unit {0}) × (ShmDisplay × Shm)
write_header d region none s = (err struct_error, (d, s))
write_header d region (some header) s =
    (ok tt, (d, with_contents region (write_front header (s.contents region)) s))

-- `opens` says whether the calls of the operating system go through.
unfoldable pub create : Bool → ℕ → ℕ → Call Unit
unfolding write_header cleanup
create opens width height d s =
    let size = header_size + width * 4 * height in
    let sized = record d { width = width; height = height; size = size } in
    let (region, s') = create_region size s in
    if opens
    then write_header (record sized { region = some region; writable = true }) region
        (pack (frame_header width height 0 0)) s'
    else (err runtime_error, cleanup sized (unlink s))

-- What `open` makes of the size of the region that it has mapped, and of its header.
unfoldable pub adopt : ℕ → ℕ → ShmHeader → Call Unit
adopt region mapped_size header d s =
    let mapped = record d { region = some region; writable = false } in
    let sized = record mapped {
      width = header.width;
      height = header.height;
      size = header_size + header.stride * header.height;
    } in
    if nat_beq mapped_size 0
    then (err empty_file, (d, s))
    else if ltb mapped_size header_size
    then (err struct_error, (mapped, s))
    else if not (nat_beq header.magic shm_magic)
    then (err runtime_error, (mapped, s))
    else (ok tt, (sized, s))

unfoldable pub opened : ℕ → List ℕ → Call Unit
unfolding adopt
opened region bytes d s = adopt region (length bytes) (unpack bytes) d s

unfoldable pub open_named : Option ℕ → Call Unit
unfolding opened cleanup
open_named none d s = (err runtime_error, cleanup d s)
open_named (some region) d s = opened region (s.contents region) d s

-- `open`
unfoldable pub open_region : Call Unit
unfolding open_named
open_region d s = open_named s.name d s

-- The region after the header and, if there are enough of them, the pixels of the frame.
abbrev pub with_frame : List ℕ → ℕ → List ℕ → List ℕ → List ℕ
with_frame header expected pixels region =
    if leb expected (length pixels)
    then splice header_size (take expected pixels) (write_front header region)
    else write_front header region

-- The assignments to slices of the map, each of which must fit; the pixels come after the header.
unfoldable pub put_frame : List ℕ → ℕ → List ℕ → ℕ → List ℕ → Call Unit
put_frame header expected pixels region bytes d s =
    if not d.writable
    then (err read_only, (d, s))
    else if ltb (length bytes) header_size
    then (err wrong_size, (d, s))
    else if leb expected (length pixels) && ltb (length bytes) (header_size + expected)
    then (err wrong_size, (d, with_contents region (write_front header bytes) s))
    else (ok tt, (d, with_contents region (with_frame header expected pixels bytes) s))

unfoldable pub write_packed : Option (List ℕ) → ℕ → List ℕ → Call Unit
unfolding put_frame
write_packed none region pixels d s = (err struct_error, (d, s))
write_packed (some header) region pixels d s =
    put_frame header (d.width * d.height * 4) pixels region (s.contents region) d s

unfoldable pub write_mapped : Option ℕ → List ℕ → ℕ → ℕ → Call Unit
unfolding write_packed
write_mapped none pixels frame_number timestamp_ns d s = (err runtime_error, (d, s))
write_mapped (some region) pixels frame_number timestamp_ns d s =
    write_packed (pack (frame_header d.width d.height frame_number timestamp_ns)) region pixels d s

unfoldable pub write_frame : List ℕ → ℕ → ℕ → Call Unit
unfolding write_mapped
write_frame pixels frame_number timestamp_ns d s =
    write_mapped d.region pixels frame_number timestamp_ns d s

pub record Frame : Type 0 where
  pub width : ℕ
  pub height : ℕ
  pub frame_number : ℕ
  pub timestamp_ns : ℕ
  pub pixels : List ℕ

abbrev pub frame_of : ShmHeader → List ℕ → Frame
frame_of header region = record {
  width = header.width;
  height = header.height;
  frame_number = header.frame_number;
  timestamp_ns = header.timestamp_ns;
  pixels = slice header_size (header.width * header.height * 4) region;
}

-- What `read_frame` makes of the header that it has read.
unfoldable pub read_with : ShmHeader → List ℕ → ShmDisplay → Option Frame × ShmDisplay
read_with header region d =
    if not (nat_beq header.magic shm_magic)
    then (none, d)
    else if nat_beq header.frame_number d.last_frame_number
    then (none, d)
    else (some (frame_of header region), record d { last_frame_number = header.frame_number })

abbrev pub Reading : Type 0
Reading = Result Error (Option Frame) × ShmDisplay

abbrev pub returned : Option Frame × ShmDisplay → Reading
returned (o, d) = (ok o, d)

-- A map that is too short for a header may be left by an `open` that has raised.
unfoldable pub read_region : List ℕ → ShmDisplay → Reading
unfolding read_with
read_region bytes d =
    if ltb (length bytes) header_size
    then (err struct_error, d)
    else returned (read_with (unpack bytes) bytes d)

unfoldable pub read_mapped : Option ℕ → ShmDisplay → Shm → Reading
unfolding read_region
read_mapped none d s = (ok none, d)
read_mapped (some region) d s = read_region (s.contents region) d

unfoldable pub read_frame : ShmDisplay → Shm → Reading
unfolding read_mapped
read_frame d s = read_mapped d.region d s

pub get_dimensions : ShmDisplay → ℕ × ℕ
get_dimensions d = (d.width, d.height)

unfoldable pub resize : Bool → ℕ → ℕ → Call Unit
unfolding cleanup create
resize opens width height d s = let (d', s') = cleanup d s in create opens width height d' s'
