-- ===== src/Emulation/GpuRenderer/Native/Frames.antt =====
-- What reading a frame does to the worker's shared memory.
use linblock.Prelude.{
  ℕ, ◌+◌, ◌≡◌, refl, ap, ◌∙◌, ◌&&◌, Option, none, some, List, arith, is_some, Bool-cases, inl, inr,
  Result, ok, err,
}
use linblock.Emulation.GpuRenderer.Header.{frame_header, pack}
use linblock.Emulation.GpuRenderer.Region.{Shm}
use linblock.Emulation.GpuRenderer.ShmDisplay as Display
use linblock.Emulation.GpuRenderer.ShmDisplay.{
  ShmDisplay, Frame, Reading, new_display, open_named, open_region, read_frame,
}
use linblock.Emulation.GpuRenderer.Renderer.{FrameData, is_ready}
use linblock.Emulation.GpuRenderer.Native.{Native, clean_after, read_and_clean, get_frame}
use linblock.Emulation.GpuRenderer.Worker.{
  Error, Host, Mapping, Mapping.absent, Mapping.mapped, Mapping.closed, Worker, write_packed,
  write_mapping, write_frame, generate_stub_frame, send_response,
}
use linblock.Emulation.GpuRenderer.Worker.Handlers.{
  answered, write_stub_frame, native_commands, handle_process_commands,
}

clean_after-name :
    (r : Reading) (s : Shm) (f : FrameData)
    → (clean_after r s).0 ≡ some f
    → (clean_after r s).1.name ≡ none
unfolding clean_after
clean_after-name (err e, d) s f h = absurd (cc)
clean_after-name (ok o, d) s f h = refl

read_and_clean-name :
    (opened : Result Display.Error (Unit {0}) × (ShmDisplay × Shm)) (f : FrameData)
    → (read_and_clean opened).0 ≡ some f
    → (read_and_clean opened).1.name ≡ none
unfolding read_and_clean
read_and_clean-name (err e, (d, s)) f h = absurd (cc)
read_and_clean-name (ok tt, (d, s)) f h = clean_after-name (read_frame d s) s f h

-- A frame that was read is the last: the name of the memory is gone.
get_frame-name :
    (r : Native) (s : Shm) (f : FrameData)
    → (get_frame r s).0 ≡ some f
    → (get_frame r s).1.name ≡ none
unfolding get_frame
get_frame-name r s f h = elim (Bool-cases (is_ready r.state && is_some r.process)) [
  | inl live ↦ rw live (read_and_clean-name (open_region new_display s) f (rw live at h))
  | inr dead ↦ cc (rw dead at h)
]

get_frame-nameless : (r : Native) (s : Shm) → s.name ≡ none → (get_frame r s).0 ≡ none
unfolding get_frame open_region
get_frame-nameless r s gone = elim (Bool-cases (is_ready r.state && is_some r.process)) [
  | inl live ↦ rw live (
      ap (λ n. (read_and_clean (open_named n new_display s)).0) gone
      ∙ unfold read_and_clean open_named in refl)
  | inr dead ↦ rw dead refl
]

-- The worker's frames leave the name alone.
abbrev Named : Option ℕ → Worker → Type 0
Named name w = w.shm.name ≡ name

write_packed-Named :
    (o : Option (List ℕ)) (pixels : List ℕ) (region : ℕ) (w : Worker)
    → (write_packed o pixels region w).1.shm.name ≡ w.shm.name
unfolding write_packed
write_packed-Named none pixels region w = refl
write_packed-Named (some header) pixels region w = ground arith

write_mapping-Named :
    (m : Mapping) (host : Host) (pixels : List ℕ) (w : Worker)
    → (write_mapping m host pixels w).1.shm.name ≡ w.shm.name
unfolding write_mapping
write_mapping-Named absent host pixels w = refl
write_mapping-Named closed host pixels w = refl
write_mapping-Named (mapped region) host pixels w =
    write_packed-Named (pack (frame_header w.width w.height (w.frame_number + 1) host.now)) pixels
      region (record w { frame_number = w.frame_number + 1 })

answered-Named :
    (host : Host) (r : Result Error (Unit {0}) × Worker) → (answered host r).shm.name ≡ r.1.shm.name
unfolding answered send_response
answered-Named host (ok a, w) = refl
answered-Named host (err e, w) = refl

handle_process_commands-Named :
    (host : Host) (d : List ℕ) (w : Worker)
    → (handle_process_commands host d w).shm.name ≡ w.shm.name
unfolding handle_process_commands write_stub_frame write_frame
handle_process_commands-Named host d w = elim (Bool-cases w.use_stub) [
  | inl stub ↦ simp stub (
      answered-Named host (write_stub_frame host w)
      ∙ write_mapping-Named w.mapping host (generate_stub_frame w) w)
  | inr native ↦
      simp native
        (answered-Named host (native_commands host d w) ∙ unfold native_commands in ground arith)
]

-- When `get_frame` has read one frame of the worker, it has unlinked the worker's memory: a second
-- call gives no frame, also after the worker has handled another request for one.
pub get_frame-process_commands :
    (r : Native) (host : Host) (d : List ℕ) (w : Worker) (f : FrameData)
    → (get_frame r w.shm).0 ≡ some f
    → ((get_frame r (get_frame r w.shm).1).0 ≡ none)
      × ((get_frame r
            (handle_process_commands host d (record w { shm = (get_frame r w.shm).1 })).shm).0
          ≡ none)
get_frame-process_commands r host d w f h =
    let v : Worker = record w { shm = (get_frame r w.shm).1 } in
    let gone = get_frame-name r w.shm f h in
    (
      get_frame-nameless r v.shm gone,
      get_frame-nameless r (handle_process_commands host d v).shm
          (handle_process_commands-Named host d v ∙ gone),
    )
