-- ===== src/Emulation/GpuRenderer/Worker/Frames.antt =====
-- The stub's frame goes through the shared memory to the display.
use linblock.Prelude.{
  ℕ, ◌+◌, ◌*◌, ◌%◌, ◌≤◌, ◌≡◌, refl, ap, ◌∙◌, true, false, some, List, [], ◌++◌, arith, length, take,
  take_all, nat_beq, leb, ltb, ok,
}
use linblock.Emulation.GpuRenderer.Header.{
  header_size, shm_magic, ShmHeader, frame_header, Fits, encode, pack-Fits,
}
use linblock.Emulation.GpuRenderer.Message.{encode as encode_message, rsp_ok}
use linblock.Emulation.GpuRenderer.Region.{with_contents, splice, write_front, slice}
use linblock.Emulation.GpuRenderer.ShmDisplay.{ShmDisplay, returned, read_with, read_frame}
use linblock.Emulation.GpuRenderer.ShmDisplay.Transfer.{
  written, unpack-written, slice-written, written_long, read_frame-mapped, frame,
}
use linblock.Emulation.GpuRenderer.Picture.{gradient, gradient_bounds}
use linblock.Emulation.GpuRenderer.Worker.{
  Host, Mapping.mapped, Worker, put_frame, pixel_data, write_packed, write_mapping, write_frame,
  generate_stub_frame, send_response,
}
use linblock.Emulation.GpuRenderer.Worker.Handlers.{
  answered, write_stub_frame, handle_process_commands,
}

-- The slices fit.
put_frame-fits :
    (header pixels : List ℕ) (region : ℕ) (w : Worker)
    → header_size + length pixels ≤ length (w.shm.contents region)
    → put_frame header pixels region w ≡ (
      ok tt,
      record w {
        shm =
            with_contents region
              (splice header_size pixels (write_front header (w.shm.contents region)))
              w.shm;
      },
    )
put_frame-fits header pixels region w h =
    let front : ltb (length (w.shm.contents region)) header_size ≡ false = ground arith in
    let whole : ltb (length (w.shm.contents region)) (header_size + length pixels) ≡ false =
      ground arith in
    simp (front, whole) refl

read_fresh :
    (h : ShmHeader) (bytes pixels : List ℕ) (c : ShmDisplay)
    → nat_beq h.magic shm_magic ≡ true
    → nat_beq h.frame_number c.last_frame_number ≡ false
    → slice header_size (h.width * h.height * 4) bytes ≡ pixels
    → (read_with h bytes c).0 ≡ some (frame h.width h.height h.frame_number h.timestamp_ns pixels)
unfolding read_with
read_fresh h bytes pixels c magic fresh behind =
    simp (magic, fresh)
      (ap (λ l. some (frame h.width h.height h.frame_number h.timestamp_ns l)) behind)

module _ (host : Host) (w : Worker) (region : ℕ) where
  -- The pixels and the header of the next frame.
  abbrev pixels : List ℕ
  pixels = generate_stub_frame w

  abbrev count : ℕ
  count = w.width * w.height * 4

  abbrev header : ShmHeader
  header = frame_header w.width w.height (w.frame_number + 1) host.now

  abbrev contents : List ℕ
  contents = written header pixels (w.shm.contents region) count

  abbrev numbered : Worker
  numbered = record w { frame_number = w.frame_number + 1 }

  length-pixels : length pixels ≡ count
  unfolding generate_stub_frame
  length-pixels = (gradient_bounds w.width w.height (w.frame_number * 2 % 256)).0

  enough : leb count (length pixels) ≡ true
  enough = let e = length-pixels in ground arith

  shm-write_stub_frame :
      w.mapping ≡ mapped region
      → Fits header
      → header_size + count ≤ length (w.shm.contents region)
      → write_stub_frame host w
        ≡ (ok tt, record numbered { shm = with_contents region contents w.shm })
  unfolding write_stub_frame write_frame write_mapping write_packed
  shm-write_stub_frame m f room =
      let all : pixel_data pixels numbered ≡ take count pixels = rw enough refl in
      let same : take count pixels ≡ pixels =
        take_all pixels count (omega (arith, length-pixels)) in
      ap (λ n. write_mapping n host pixels w) m
      ∙ ap (λ o. write_packed o pixels region numbered) (pack-Fits header f)
      ∙ ap (λ l. put_frame (encode header) l region numbered) all
      ∙ put_frame-fits (encode header) (take count pixels) region numbered
          (omega (arith, ap length same, length-pixels))
      ∙ simp enough refl

process_stub :
    (host : Host) (d : List ℕ) (w : Worker)
    → w.use_stub ≡ true
    → handle_process_commands host d w ≡ answered host (write_stub_frame host w)
unfolding handle_process_commands
process_stub host d w stub = simp stub refl

-- While the stub draws into an open map with room for the frame, a display that has mapped
-- the region reads, after a request for a frame is handled, the gradient in the worker's width and height under the next frame number
-- and with the time of writing, if the header fits its fields and that number is not the one
-- it has read last; and the worker has answered RSP_OK.
pub read_frame-process_commands :
    (host : Host) (d : List ℕ) (w : Worker) (region : ℕ) (c : ShmDisplay)
    → w.use_stub ≡ true
    → w.mapping ≡ mapped region
    → c.region ≡ some region
    → Fits (frame_header w.width w.height (w.frame_number + 1) host.now)
    → header_size + w.width * w.height * 4 ≤ length (w.shm.contents region)
    → nat_beq (w.frame_number + 1) c.last_frame_number ≡ false
    → ((read_frame c (handle_process_commands host d w).shm).0
        ≡ ok (
            some (
              frame w.width w.height
                (w.frame_number + 1)
                host.now
                (gradient w.width w.height (w.frame_number * 2 % 256)))))
      × ((handle_process_commands host d w).sent ≡ w.sent ++ encode_message rsp_ok [])
unfolding handle_process_commands answered send_response
read_frame-process_commands host d w region c stub m shared f room fresh =
    let h = header host w region in
    let bytes = contents host w region in
    let frame_pixels = pixels host w region in
    let n = count host w region in
    let enough' : n ≤ length frame_pixels = omega (arith, length-pixels host w region) in
    let e : handle_process_commands host d w
        ≡ send_response rsp_ok []
            (record (numbered host w region) { shm = with_contents region bytes w.shm }) =
      process_stub host d w stub
      ∙ ap (answered host) (shm-write_stub_frame host w region m f room) in
    (
      ap (λ v. (read_frame c v.shm).0) e
          ∙ ap (λ r. r.0)
              (read_frame-mapped c w.shm region bytes shared
                (written_long h frame_pixels (w.shm.contents region) n enough'))
          ∙ ap (λ k. (returned (read_with k bytes c)).0)
              (unpack-written h frame_pixels (w.shm.contents region) n f enough')
          ∙ ap ok (
              read_fresh h bytes frame_pixels c (refl) fresh (
                slice-written h frame_pixels (w.shm.contents region) n enough'
                ∙ take_all frame_pixels n (omega (arith, length-pixels host w region)))),
      ap (λ v. v.sent) e,
    )
