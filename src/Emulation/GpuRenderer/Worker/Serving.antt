-- ===== src/Emulation/GpuRenderer/Worker/Serving.antt =====
-- Every handler keeps the size of the map.
use mathlib.Core.Path.{subst}
use linblock.Prelude.{
  ℕ, ◌≡◌, refl, sym, Bool, true, false, List, arith, length, take, drop, nat_beq, if◌then◌else◌,
  Bool-cases, inl, inr, Result, ok, err, ◌>>◌, >>=-Holds,
}
use linblock.Bytes.{of_le}
use linblock.Emulation.GpuRenderer.Message.{
  msg_init, msg_process_commands, msg_resize, msg_rotate, msg_shutdown,
}
use linblock.Emulation.GpuRenderer.Worker.{
  Error, Host, Mapping, Mapping.absent, Mapping.mapped, Mapping.closed, Descriptor,
  Descriptor.none_yet, Descriptor.opened, Descriptor.shut, Worker, memory_size, setup_shared_memory,
  send_response, load_native_library, init_native_renderer,
}
use linblock.Emulation.GpuRenderer.Worker.Handlers.{
  answered, choose_renderer, write_stub_frame, initial_frame, handle_init, native_commands,
  handle_process_commands, close_mapping, close_descriptor, resized, handle_resize, is_rotation,
  handle_rotate, serve,
}
use linblock.Emulation.GpuRenderer.Worker.Sizes.{
  Sized, IsSized, of_mapping, setup_shared_memory-IsSized, write_stub_frame-IsSized,
}

-- Choosing a renderer leaves the memory alone.
choose_renderer_memory :
    (host : Host) (w : Worker)
    → ((choose_renderer host w).mapping ≡ w.mapping)
      × (memory_size (choose_renderer host w) ≡ memory_size w)
      × ((choose_renderer host w).shm ≡ w.shm)
unfolding choose_renderer load_native_library init_native_renderer
choose_renderer_memory host w = ground arith

choose_renderer-IsSized : (host : Host) (w : Worker) → IsSized w → IsSized (choose_renderer host w)
choose_renderer-IsSized host w h =
    let (mapping, size, shm) = choose_renderer_memory host w in
    let w' = choose_renderer host w in
    subst (λ n. Sized w'.mapping n w'.shm) (sym size)
      (subst (λ s. Sized w'.mapping (memory_size w) s) (sym shm)
        (subst (λ m. Sized m (memory_size w) w.shm) (sym mapping) h))

answered-IsSized :
    (host : Host) (r : Result Error (Unit {0}) × Worker) → IsSized r.1 → IsSized (answered host r)
unfolding answered send_response
answered-IsSized host (ok a, w) h = h
answered-IsSized host (err e, w) h = h

initial_frame-IsSized : (host : Host) (w : Worker) → IsSized w → IsSized (initial_frame host w).1
unfolding initial_frame
initial_frame-IsSized host w h = elim (Bool-cases w.use_stub) [
  | inl stub ↦ simp stub (write_stub_frame-IsSized host w h)
  | inr native ↦ simp native h
]

handle_init-IsSized :
    (host : Host) (d : List ℕ) (w : Worker) → IsSized w → IsSized (handle_init host d w)
unfolding handle_init
handle_init-IsSized host d w h =
    let w' = choose_renderer host w in
    answered-IsSized host ((setup_shared_memory host >> initial_frame host) w') (
      >>=-Holds {P = IsSized} (setup_shared_memory host) (λ _. initial_frame host) w'
        (λ _ v. initial_frame-IsSized host v)
        (setup_shared_memory-IsSized host w' (choose_renderer-IsSized host w h)))

native_commands-IsSized :
    (host : Host) (d : List ℕ) (w : Worker) → IsSized w → IsSized (native_commands host d w).1
unfolding native_commands
native_commands-IsSized host d w h =
    let same : (native_commands host d w).1 ≡ w = ground arith in subst IsSized (sym same) h

handle_process_commands-IsSized :
    (host : Host) (d : List ℕ) (w : Worker) → IsSized w → IsSized (handle_process_commands host d w)
unfolding handle_process_commands
handle_process_commands-IsSized host d w h = elim (Bool-cases w.use_stub) [
  | inl stub ↦
      simp stub
        (answered-IsSized host (write_stub_frame host w) (write_stub_frame-IsSized host w h))
  | inr native ↦
      simp native
        (answered-IsSized host (native_commands host d w) (native_commands-IsSized host d w h))
]

-- Whatever the size was before.
close_mapping-IsSized : (m : Mapping) (w : Worker) → w.mapping ≡ m → IsSized (close_mapping m w).1
unfolding close_mapping
close_mapping-IsSized absent w e = of_mapping absent w e tt
close_mapping-IsSized (mapped r) w e = tt
close_mapping-IsSized closed w e = of_mapping closed w e tt

close_descriptor-IsSized :
    (d : Descriptor) (w : Worker) → IsSized w → IsSized (close_descriptor d w).1
unfolding close_descriptor
close_descriptor-IsSized none_yet w h = h
close_descriptor-IsSized opened w h = h
close_descriptor-IsSized shut w h = h

resized-IsSized :
    (host : Host) (width height : ℕ) (w : Worker) → IsSized (resized host width height w).1
unfolding resized
resized-IsSized host width height w =
    let v : Worker = record w { width = width; height = height } in
    >>=-Holds {P = IsSized}
      ((λ v. close_mapping v.mapping v) >> (λ v. close_descriptor v.descriptor v))
      (λ _. setup_shared_memory host) v (λ _ u. setup_shared_memory-IsSized host u)
      (>>=-Holds {P = IsSized} (λ v. close_mapping v.mapping v)
        (λ _ u. close_descriptor u.descriptor u) v (λ _ u. close_descriptor-IsSized u.descriptor u)
        (close_mapping-IsSized v.mapping v refl))

handle_resize-IsSized :
    (host : Host) (d : List ℕ) (w : Worker) → IsSized w → IsSized (handle_resize host d w)
unfolding handle_resize
handle_resize-IsSized host d w h = elim (Bool-cases (nat_beq (length d) 8)) [
  | inl whole ↦ simp whole (
      answered-IsSized host (resized host (of_le (take 4 d)) (of_le (drop 4 d)) w)
        (resized-IsSized host (of_le (take 4 d)) (of_le (drop 4 d)) w))
  | inr broken ↦ simp broken (answered-IsSized host (err Error.struct_error, w) h)
]

handle_rotate-IsSized :
    (host : Host) (d : List ℕ) (w : Worker) → IsSized w → IsSized (handle_rotate host d w)
unfolding handle_rotate
handle_rotate-IsSized host d w h = elim (Bool-cases (nat_beq (length d) 4)) [
  | inl whole ↦ elim (Bool-cases (is_rotation (of_le d))) [
    | inl right ↦ simp (whole, right) (answered-IsSized host (ok tt, w) h)
    | inr odd ↦
        simp (whole, odd) (answered-IsSized host (err (Error.invalid_rotation (of_le d)), w) h)
  ]
  | inr broken ↦ simp broken (answered-IsSized host (err Error.struct_error, w) h)
]

either-IsSized : (b : Bool) (v w : Worker) → IsSized v → IsSized w → IsSized (if b then v else w)
either-IsSized true v w h k = h
either-IsSized false v w h k = k

-- Whatever message the worker handles, and whatever the system and the native library answer, an
-- open map stays as large as the header and a frame of the current width and height.
pub serve-IsSized :
    (host : Host) (msg_type : ℕ) (d : List ℕ) (w : Worker)
    → IsSized w
    → IsSized (serve host msg_type d w)
unfolding serve send_response
serve-IsSized host msg_type d w h =
    either-IsSized (nat_beq msg_type msg_init) _ _ (handle_init-IsSized host d w h) (
      either-IsSized (nat_beq msg_type msg_process_commands) _ _
        (handle_process_commands-IsSized host d w h)
        (either-IsSized (nat_beq msg_type msg_resize) _ _ (handle_resize-IsSized host d w h) (
          either-IsSized (nat_beq msg_type msg_rotate) _ _ (handle_rotate-IsSized host d w h)
            (either-IsSized (nat_beq msg_type msg_shutdown) _ _ h h))))
