-- ===== src/Emulation/GpuRenderer/Worker/Resizing.antt =====
-- What a resize leaves for the display to open, and what a resize that fails leaves.
use mathlib.Core.Path.{subst}
use linblock.Prelude.{
  ℕ, ◌+◌, ◌*◌, ◌^◌, ◌<◌, ◌≡◌, refl, ap, sym, ◌∙◌, true, false, ◌&&◌, not, some, List, [], ◌++◌,
  arith, length, length-append, drop, nat_beq, nat_beq_iff, ltb, is_some, ok,
}
use linblock.Bytes.{
  le_bytes, of_le, zeros, length-le_bytes, field_here, field_behind, of_le-le_bytes,
}
use linblock.Emulation.GpuRenderer.Header.{
  ShmHeader, shm_magic, header_size, frame_header, Fits, encode, pack-Fits, unpack, unpack-encode,
  length-encode,
}
use linblock.Emulation.GpuRenderer.Region.{Shm, with_contents, unlink, create_region, write_front}
use linblock.Emulation.GpuRenderer.Message.{encode as encode_message, rsp_ok}
use linblock.Emulation.GpuRenderer.ShmDisplay.{
  ShmDisplay, adopt, opened as opened_region, open_named, open_region,
}
use linblock.Emulation.GpuRenderer.Worker.{
  Setup.granted, Host, Mapping.mapped, Descriptor.opened, Worker, write_header, create_memory,
  setup_shared_memory, send_response,
}
use linblock.Emulation.GpuRenderer.Worker.Handlers.{
  answered, close_mapping, close_descriptor, resized, handle_resize,
}

-- The data of a resize message.
abbrev pub size_bytes : ℕ → ℕ → List ℕ
size_bytes width height = le_bytes 4 width ++ le_bytes 4 height

pub handle_resize-size_bytes :
    (host : Host) (width height : ℕ) (w : Worker)
    → width < 256 ^ 4
    → height < 256 ^ 4
    → handle_resize host (size_bytes width height) w ≡ answered host (resized host width height w)
unfolding handle_resize
handle_resize-size_bytes host width height w fits fits' =
    let size : length (size_bytes width height) ≡ 8 =
      length-append (le_bytes 4 width) (le_bytes 4 height)
      ∙ omega (arith, length-le_bytes 4 width, length-le_bytes 4 height) in
    let whole : nat_beq (length (size_bytes width height)) 8 ≡ true = rw size refl in
    let first = field_here 4 width fits (le_bytes 4 height) in
    let second : of_le (drop 4 (size_bytes width height)) ≡ height =
      ap of_le (field_behind 4 width (le_bytes 4 height)) ∙ of_le-le_bytes 4 height fits' in
    simp (whole, first, second) refl

module _ (host : Host) (width height : ℕ) (w : Worker) where
  -- The new region, named and mapped, with its header.
  abbrev pub memory : Shm
  memory =
      let (r, s) = create_region (header_size + width * 4 * height) (unlink w.shm) in
      with_contents r (write_front (encode (frame_header width height 0 0)) (s.contents r)) s

  abbrev pub after : Worker
  after = record w {
    width = width;
    height = height;
    descriptor = opened;
    mapping = mapped w.shm.next;
    shm = memory;
  }

  pub resized-granted :
      (region : ℕ)
      → w.mapping ≡ mapped region
      → w.descriptor ≡ opened
      → (is_some w.shm.name && not host.unlinks) ≡ false
      → host.setup ≡ granted
      → Fits (frame_header width height 0 0)
      → resized host width height w ≡ (ok tt, after)
  unfolding resized close_mapping close_descriptor setup_shared_memory create_memory write_header
  resized-granted region m d gone setup f =
      simp (m, d, gone, setup, pack-Fits (frame_header width height 0 0) f) refl

-- A region with a header in front is opened, if the header has the magic number.
abbrev adopted : ℕ → ShmHeader → ShmDisplay → ShmDisplay
adopted region h d = record d {
  region = some region;
  writable = false;
  width = h.width;
  height = h.height;
  size = header_size + h.stride * h.height;
}

adopt-header :
    (region n : ℕ) (h : ShmHeader) (d : ShmDisplay) (s : Shm)
    → nat_beq h.magic shm_magic ≡ true
    → adopt region (header_size + n) h d s ≡ (ok tt, (adopted region h d, s))
unfolding adopt
adopt-header region n h d s magic =
    let some_bytes : nat_beq (header_size + n) 0 ≡ false = ground arith in
    let enough : ltb (header_size + n) header_size ≡ false = ground arith in
    simp (some_bytes, enough, magic) refl

opened-encode :
    (region : ℕ) (h : ShmHeader) (rest : List ℕ) (d : ShmDisplay) (s : Shm)
    → Fits h
    → nat_beq h.magic shm_magic ≡ true
    → opened_region region (encode h ++ rest) d s ≡ (ok tt, (adopted region h d, s))
unfolding opened_region
opened-encode region h rest d s f magic =
    let size : length (encode h ++ rest) ≡ header_size + length rest =
      length-append (encode h) rest ∙ ap (λ n. n + length rest) (length-encode h) in
    ap (λ n. adopt region n (unpack (encode h ++ rest)) d s) size
    ∙ ap (λ k. adopt region (header_size + length rest) k d s) (unpack-encode h rest f)
    ∙ adopt-header region (length rest) h d s magic

-- A display opens the shared memory, and has then that width and height.
abbrev pub Opens : ShmDisplay → Shm → ℕ → ℕ → Type 0
Opens d s width height =
    ((open_region d s).0 ≡ ok tt)
    × ((open_region d s).1.0.width ≡ width)
    × ((open_region d s).1.0.height ≡ height)

open_memory :
    (host : Host) (width height : ℕ) (w : Worker) (d : ShmDisplay)
    → Fits (frame_header width height 0 0)
    → Opens d (memory host width height w) width height
unfolding open_region open_named
open_memory host width height w d f =
    let h = frame_header width height 0 0 in
    let r = w.shm.next in
    let s = memory host width height w in
    let rest = drop (length (encode h)) (zeros (header_size + width * 4 * height)) in
    let bytes : s.contents r ≡ encode h ++ rest = rw ((nat_beq_iff r r).1 refl) refl in
    let e : open_region d s ≡ (ok tt, (adopted r h d, s)) =
      ap (λ b. opened_region r b d s) bytes ∙ opened-encode r h rest d s f refl in
    (ap (λ a. a.0) e, ap (λ a. a.1.0.width) e, ap (λ a. a.1.0.height) e)

-- When the worker has handled a resize that the system grants, it has answered RSP_OK and has the new
-- width and height, and a display that opens the shared memory has them too. The sizes fit their
-- fields, and the old map was open.
pub handle_resize-granted :
    (host : Host) (width height : ℕ) (w : Worker) (region : ℕ) (d : ShmDisplay)
    → w.mapping ≡ mapped region
    → w.descriptor ≡ opened
    → (is_some w.shm.name && not host.unlinks) ≡ false
    → host.setup ≡ granted
    → Fits (frame_header width height 0 0)
    → ((handle_resize host (size_bytes width height) w).sent ≡ w.sent ++ encode_message rsp_ok [])
      × ((handle_resize host (size_bytes width height) w).width ≡ width)
      × ((handle_resize host (size_bytes width height) w).height ≡ height)
      × Opens d (handle_resize host (size_bytes width height) w).shm width height
unfolding answered send_response
handle_resize-granted host width height w region d m o gone setup f =
    let done : handle_resize host (size_bytes width height) w
        ≡ answered host (ok tt, after host width height w) =
      handle_resize-size_bytes host width height w f.width f.height
      ∙ ap (answered host) (resized-granted host width height w region m o gone setup f) in
    (
      ap (λ v. v.sent) done,
      ap (λ v. v.width) done,
      ap (λ v. v.height) done,
      subst (λ v. Opens d v.shm width height) (sym done) (open_memory host width height w d f),
    )
