-- ===== src/Emulation/GpuRenderer/Worker/Handlers.antt =====
-- What the worker does with a message: the `_handle_` functions, and the branch of `run` that picks
-- one of them.
use linblock.Prelude.{
  ℕ, Bool, true, false, ◌&&◌, ◌||◌, not, some, List, [], ◌∷◌, length, take, drop, nat_beq,
  if◌then◌else◌, Result, ok, err, ◌>>◌,
}
use linblock.Bytes.{of_le}
use linblock.Emulation.GpuRenderer.Message.{
  msg_init, msg_process_commands, msg_resize, msg_rotate, msg_shutdown, rsp_ok, rsp_error,
}
use linblock.Emulation.GpuRenderer.Worker.{
  Error, Error.os_error, Error.struct_error, Error.map_closed, Error.gpu_failed,
  Error.invalid_rotation, Host, Mapping, Mapping.absent, Mapping.mapped, Mapping.closed, Descriptor,
  Descriptor.none_yet, Descriptor.opened, Descriptor.shut, Worker, Call, load_native_library,
  init_native_renderer, is_zero, setup_shared_memory, write_frame, generate_stub_frame,
  send_response,
}

-- `try: ...; self._send_response(RSP_OK)` and its handler.
unfoldable pub answered : Host → Result Error (Unit {0}) × Worker → Worker
unfolding send_response
answered host (ok _, w) = send_response rsp_ok [] w
answered host (err e, w) = send_response rsp_error (host.text e) w

-- Native rendering where there is a library, and it starts.
unfoldable pub choose_renderer : Host → Worker → Worker
unfolding load_native_library init_native_renderer
choose_renderer host w =
    let (has_library, w') = load_native_library host w in
    let (started, w'') = init_native_renderer host w' in
    if has_library then record w'' { use_stub = not started } else record w' { use_stub = true }

-- `self._write_frame(self._generate_stub_frame())`
unfoldable pub write_stub_frame : Host → Call Unit
unfolding write_frame generate_stub_frame
write_stub_frame host w = write_frame host (generate_stub_frame w) w

unfoldable pub initial_frame : Host → Call Unit
unfolding write_stub_frame
initial_frame host w = if w.use_stub then write_stub_frame host w else (ok tt, w)

unfoldable pub handle_init : Host → List ℕ → Worker → Worker
unfolding answered choose_renderer setup_shared_memory initial_frame
handle_init host d w =
    answered host ((setup_shared_memory host >> initial_frame host) (choose_renderer host w))

unfoldable pub native_commands : Host → List ℕ → Call Unit
native_commands host d w =
    if w.lib && w.context
    then if is_zero (some (host.commands d))
      then (ok tt, w)
      else (err (gpu_failed (host.commands d)), w)
    else (ok tt, w)

unfoldable pub handle_process_commands : Host → List ℕ → Worker → Worker
unfolding answered write_stub_frame native_commands
handle_process_commands host d w =
    answered host (if w.use_stub then write_stub_frame host w else native_commands host d w)

-- `if self._shm_mmap: self._shm_mmap.close()`: the test of a closed map raises.
unfoldable pub close_mapping : Mapping → Call Unit
close_mapping absent w = (ok tt, w)
close_mapping (mapped region) w = (ok tt, record w { mapping = closed })
close_mapping closed w = (err map_closed, w)

-- `if self._shm_fd: os.close(self._shm_fd)`
unfoldable pub close_descriptor : Descriptor → Call Unit
close_descriptor none_yet w = (ok tt, w)
close_descriptor opened w = (ok tt, record w { descriptor = shut })
close_descriptor shut w = (err os_error, w)

unfoldable pub resized : Host → ℕ → ℕ → Call Unit
unfolding close_mapping close_descriptor setup_shared_memory
resized host width height w =
    ((λ v. close_mapping v.mapping v)
        >> (λ v. close_descriptor v.descriptor v)
        >> setup_shared_memory host)
      (record w { width = width; height = height })

-- struct.unpack("<II", data) wants eight bytes.
unfoldable pub handle_resize : Host → List ℕ → Worker → Worker
unfolding answered resized
handle_resize host d w = answered host (
    if nat_beq (length d) 8
    then resized host (of_le (take 4 d)) (of_le (drop 4 d)) w
    else (err struct_error, w))

abbrev pub is_rotation : ℕ → Bool
is_rotation degrees =
    nat_beq degrees 0 || (nat_beq degrees 90 || (nat_beq degrees 180 || nat_beq degrees 270))

unfoldable pub handle_rotate : Host → List ℕ → Worker → Worker
unfolding answered
handle_rotate host d w =
    let degrees = of_le d in
    answered host (
      if nat_beq (length d) 4
      then if is_rotation degrees then (ok tt, w) else (err (invalid_rotation degrees), w)
      else (err struct_error, w))

-- b"Unknown message type"
abbrev pub unknown_type : List ℕ
unknown_type =
    b'U' ∷ b'n' ∷ b'k' ∷ b'n' ∷ b'o' ∷ b'w' ∷ b'n' ∷ b' ' ∷ b'm' ∷ b'e' ∷ b's' ∷ b's' ∷ b'a' ∷ b'g'
    ∷ b'e' ∷ b' ' ∷ b't' ∷ b'y' ∷ b'p' ∷ b'e' ∷ []

unfoldable pub serve : Host → ℕ → List ℕ → Worker → Worker
unfolding handle_init handle_process_commands handle_resize handle_rotate send_response
serve host msg_type d w =
    if nat_beq msg_type msg_init
    then handle_init host d w
    else if nat_beq msg_type msg_process_commands
    then handle_process_commands host d w
    else if nat_beq msg_type msg_resize
    then handle_resize host d w
    else if nat_beq msg_type msg_rotate
    then handle_rotate host d w
    else if nat_beq msg_type msg_shutdown
    then send_response rsp_ok [] (record w { running = false })
    else send_response rsp_error unknown_type w
