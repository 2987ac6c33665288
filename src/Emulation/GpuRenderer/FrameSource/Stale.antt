-- ===== src/Emulation/GpuRenderer/FrameSource/Stale.antt =====
-- A frame is delivered once, and what the frame source sees of a worker that is resized.
use linblock.Prelude.{
  ℕ, ◌+◌, ◌<◌, ◌≡◌, refl, ap, sym, ◌∙◌, Bool, true, false, ◌&&◌, not, Option, none, some, List,
  arith, length, ltb, nat_beq, is_some, Bool-cases, inl, inr, Result, ok, err,
}
use linblock.Emulation.GpuRenderer.Header.{ShmHeader, header_size, frame_header, Fits, unpack, pack}
use linblock.Emulation.GpuRenderer.Region.{Shm}
use linblock.Emulation.GpuRenderer.ShmDisplay.{
  ShmDisplay, Frame, Reading, read_with, read_region, read_mapped, read_frame,
}
use linblock.Emulation.GpuRenderer.FrameSource.{
  FrameSource, tell, count_frame, deliver, polled, poll, poll_frame,
}
use linblock.Emulation.GpuRenderer.Worker.{
  Error, Host, Mapping.mapped, Descriptor.opened, Setup.granted, Worker, put_frame, pixel_data,
  write_packed, write_mapping, write_frame, generate_stub_frame, send_response,
}
use linblock.Emulation.GpuRenderer.Worker.Handlers.{
  answered, write_stub_frame, native_commands, handle_process_commands, handle_resize,
}
use linblock.Emulation.GpuRenderer.Worker.Resizing.{
  size_bytes, handle_resize-size_bytes, resized-granted, after,
}

-- A region is read again: there is nothing new.
read_with-twice :
    (h : ShmHeader) (bytes : List ℕ) (d : ShmDisplay)
    → (read_with h bytes (read_with h bytes d).1).0 ≡ none
unfolding read_with
read_with-twice h bytes d = ground arith

read_with-region :
    (h : ShmHeader) (bytes : List ℕ) (d : ShmDisplay) → (read_with h bytes d).1.region ≡ d.region
unfolding read_with
read_with-region h bytes d = ground arith

-- A reading without a frame, or of a read that has raised.
abbrev frame_of_reading : Reading → Option Frame
frame_of_reading (err e, d) = none
frame_of_reading (ok o, d) = o

read_region-twice :
    (bytes : List ℕ) (d : ShmDisplay)
    → frame_of_reading (read_region bytes (read_region bytes d).1) ≡ none
unfolding read_region
read_region-twice bytes d = elim (Bool-cases (ltb (length bytes) header_size)) [
  | inl short ↦ simp short refl
  | inr long ↦ simp long (read_with-twice (unpack bytes) bytes d)
]

read_region-region : (bytes : List ℕ) (d : ShmDisplay) → (read_region bytes d).1.region ≡ d.region
unfolding read_region
read_region-region bytes d = elim (Bool-cases (ltb (length bytes) header_size)) [
  | inl short ↦ simp short refl
  | inr long ↦ simp long (read_with-region (unpack bytes) bytes d)
]

-- The two reads, of stores that agree on the region that the display has mapped.
read_frame-twice :
    (d : ShmDisplay) (region : ℕ) (s s' : Shm)
    → d.region ≡ some region
    → s'.contents region ≡ s.contents region
    → frame_of_reading (read_frame (read_frame d s).1 s') ≡ none
unfolding read_frame read_mapped
read_frame-twice d region s s' m same =
    let bytes = s.contents region in
    let first : read_frame d s ≡ read_region bytes d = ap (λ r. read_mapped r d s) m in
    let d' = (read_region bytes d).1 in
    let kept : d'.region ≡ some region = read_region-region bytes d ∙ m in
    ap (λ r. frame_of_reading (read_frame r.1 s')) first
    ∙ ap (λ r. frame_of_reading (read_mapped r d' s')) kept
    ∙ ap (λ l. frame_of_reading (read_region l d')) same
    ∙ read_region-twice bytes d

module _ (region : ℕ) where
  abbrev contents : Worker → List ℕ
  contents w = w.shm.contents region

  -- A frame goes to the mapped region, and to no other.
  put_frame-contents :
      (header pixels : List ℕ) (r : ℕ) (w : Worker)
      → nat_beq region r ≡ false
      → contents (put_frame header pixels r w).1 ≡ contents w
  put_frame-contents header pixels r w other = ground arith

  write_packed-contents :
      (o : Option (List ℕ)) (pixels : List ℕ) (r : ℕ) (w : Worker)
      → nat_beq region r ≡ false
      → contents (write_packed o pixels r w).1 ≡ contents w
  unfolding write_packed
  write_packed-contents none pixels r w other = refl
  write_packed-contents (some header) pixels r w other =
      put_frame-contents header (pixel_data pixels w) r w other

  answered-contents :
      (host : Host) (r : Result Error (Unit {0}) × Worker)
      → contents (answered host r) ≡ contents r.1
  unfolding answered send_response
  answered-contents host (ok a, w) = refl
  answered-contents host (err e, w) = refl

  write_stub_frame-contents :
      (host : Host) (r : ℕ) (w : Worker)
      → w.mapping ≡ mapped r
      → nat_beq region r ≡ false
      → contents (write_stub_frame host w).1 ≡ contents w
  unfolding write_stub_frame write_frame write_mapping
  write_stub_frame-contents host r w m other =
      ap (λ n. contents (write_mapping n host (generate_stub_frame w) w).1) m
      ∙ write_packed-contents (pack (frame_header w.width w.height (w.frame_number + 1) host.now))
          (generate_stub_frame w) r (record w { frame_number = w.frame_number + 1 }) other

  handle_process_commands-contents :
      (host : Host) (d : List ℕ) (r : ℕ) (w : Worker)
      → w.mapping ≡ mapped r
      → nat_beq region r ≡ false
      → contents (handle_process_commands host d w) ≡ contents w
  unfolding handle_process_commands
  handle_process_commands-contents host d r w m other = elim (Bool-cases w.use_stub) [
    | inl stub ↦ simp stub (
        answered-contents host (write_stub_frame host w)
        ∙ write_stub_frame-contents host r w m other)
    | inr native ↦
        simp native (
          answered-contents host (native_commands host d w)
          ∙ unfold native_commands in ground arith)
  ]

  -- The new region is another one.
  after-contents :
      (host : Host) (width height : ℕ) (w : Worker)
      → nat_beq region w.shm.next ≡ false
      → contents (after host width height w) ≡ contents w
  after-contents host width height w other = rw other refl

-- The frames of a poll are those of the source, and one more if one was read.
polled-frames :
    (accepts : Bool) (second now : ℕ) (f : FrameSource) (r : Reading)
    → frame_of_reading r ≡ none
    → (polled accepts second now f r).frames ≡ f.frames
unfolding polled
polled-frames accepts second now f (err x, d) e = refl
polled-frames accepts second now f (ok none, d) e = refl
polled-frames accepts second now f (ok (some frame), d) e = absurd (cc)

-- What a poll leaves as it was.
deliver-fields :
    (accepts : Bool) (second now : ℕ) (frame : Frame) (f : FrameSource)
    → ((deliver accepts second now frame f).shm ≡ f.shm)
      × ((deliver accepts second now frame f).running ≡ f.running)
      × ((deliver accepts second now frame f).widget ≡ f.widget)
unfolding deliver tell count_frame
deliver-fields accepts second now frame f = ground arith

polled-fields :
    (accepts : Bool) (second now : ℕ) (f : FrameSource) (r : Reading)
    → ((polled accepts second now f r).shm ≡ some r.1)
      × ((polled accepts second now f r).running ≡ f.running)
      × ((polled accepts second now f r).widget ≡ f.widget)
unfolding polled
polled-fields accepts second now f (err e, d) = (refl, refl, refl)
polled-fields accepts second now f (ok none, d) = (refl, refl, refl)
polled-fields accepts second now f (ok (some frame), d) =
    deliver-fields accepts second now frame (record f { shm = some d })

module _ (second : ℕ) (f : FrameSource) (d : ShmDisplay) (region : ℕ) (s s' : Shm) where
  -- Two polls of a running source.
  poll_frame-twice :
      (accepts accepts' : Bool) (now now' : ℕ)
      → f.running ≡ true
      → f.widget ≡ true
      → f.shm ≡ some d
      → d.region ≡ some region
      → s'.contents region ≡ s.contents region
      → (poll_frame accepts' second now' s' (poll_frame accepts second now s f).1).1.frames
        ≡ (poll_frame accepts second now s f).1.frames
  unfolding poll_frame poll
  poll_frame-twice accepts accepts' now now' runs shows m r same =
      let g = polled accepts second now f (read_frame d s) in
      let fields = polled-fields accepts second now f (read_frame d s) in
      let first : (poll_frame accepts second now s f).1 ≡ g =
        simp (runs, shows) (ap (λ o. poll o accepts second now s f) m) in
      let second' : (poll_frame accepts' second now' s' g).1.frames
          ≡ (polled accepts' second now' g (read_frame (read_frame d s).1 s')).frames =
        simp (fields.1 ∙ runs, fields.2 ∙ shows)
          (ap (λ o. (poll o accepts' second now' s' g).frames) fields.0) in
      ap (λ x. (poll_frame accepts' second now' s' x).1.frames) first
      ∙ second'
      ∙ polled-frames accepts' second now' g (read_frame (read_frame d s).1 s')
          (read_frame-twice d region s s' r same)
      ∙ ap (λ x. x.frames) (sym first)

-- A frame source that polls the worker's shared memory stays with the region that it has opened. When the
-- worker is resized, which makes a new region, and draws into that, the next poll delivers nothing: the
-- frames of the widget are those of the poll before. The source is running with a widget, the display
-- has mapped the worker's region, which is older than the next one, and the resize is granted.
pub poll_frame-handle_resize :
    (host later : Host) (width height second region : ℕ) (f : FrameSource) (d : ShmDisplay)
    (w : Worker) (accepts accepts' : Bool) (now now' : ℕ) (bytes : List ℕ)
    → f.running ≡ true
    → f.widget ≡ true
    → f.shm ≡ some d
    → d.region ≡ some region
    → w.mapping ≡ mapped region
    → region < w.shm.next
    → w.descriptor ≡ opened
    → (is_some w.shm.name && not host.unlinks) ≡ false
    → host.setup ≡ granted
    → Fits (frame_header width height 0 0)
    → (poll_frame accepts' second now'
        (handle_process_commands later bytes (handle_resize host (size_bytes width height) w)).shm
        (poll_frame accepts second now w.shm f).1).1.frames
      ≡ (poll_frame accepts second now w.shm f).1.frames
poll_frame-handle_resize host later width height second region f d w accepts accepts' now now' bytes
      runs shows m r drawn older o gone setup fits =
    let v = handle_resize host (size_bytes width height) w in
    let e : v ≡ answered host (ok tt, after host width height w) =
      handle_resize-size_bytes host width height w fits.width fits.height
      ∙ ap (answered host) (resized-granted host width height w region drawn o gone setup fits) in
    let other : nat_beq region w.shm.next ≡ false = ground arith in
    let remapped : v.mapping ≡ mapped w.shm.next =
      ap (λ u. u.mapping) e ∙ unfold answered send_response in refl in
    let same : (handle_process_commands later bytes v).shm.contents region ≡ w.shm.contents region =
      handle_process_commands-contents region later bytes w.shm.next v remapped other
      ∙ ap (λ u. u.shm.contents region) e
      ∙ answered-contents region host (ok tt, after host width height w)
      ∙ after-contents region host width height w other in
    poll_frame-twice second f d region w.shm (handle_process_commands later bytes v).shm accepts
      accepts' now now' runs shows m r same
