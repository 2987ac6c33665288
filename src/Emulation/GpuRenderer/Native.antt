-- ===== src/Emulation/GpuRenderer/Native.antt =====
-- gpu_renderer/interface.py: `NativeGPURenderer`, over the models of the renderer process and of the
-- shared memory. The callbacks are kept, and nothing calls them.
pub mod Frames
use Prim.Native.String.{◌++◌ as ◌<>◌}
use linblock.Prelude.{
  ℕ, ◌+◌, ◌*◌, String, string_eq, ◌==◌, Bool, true, false, ◌&&◌, not, Option, none, some, List, [],
  ◌∷◌, ◌++◌, is_some, if◌then◌else◌, Result, ok, err, Method,
}
use linblock.Emulation.GpuRenderer.Region.{Shm}
use linblock.Emulation.GpuRenderer.ShmDisplay as Display
use linblock.Emulation.GpuRenderer.ShmDisplay.{
  ShmDisplay, Frame, Reading, new_display, open_region, read_frame,
}
use linblock.Emulation.GpuRenderer.Launcher.{Config, Machine, first_existing}
use linblock.Emulation.GpuRenderer.Process as Child
use linblock.Emulation.GpuRenderer.Process.{Process, new_process, start, text_of}
use linblock.Emulation.GpuRenderer.Renderer.{
  Error, invalid_rotation, init_error, not_ready, process_raises, RendererState, uninitialized,
  initializing, ready, error, is_ready, bgra8888, FrameData, RendererConfig, RendererInfo,
  is_rotation, remove,
}

abbrev pub NativeError : Type 0
NativeError = Error Child.Error

pub record Native : Type 0 where
  pub config : RendererConfig
  pub state : RendererState
  pub process : Option Process
  pub frame_count : ℕ
  pub frame_callbacks : List ℕ
  pub error_message : String
  pub use_sandbox : Bool

abbrev pub Call : Type 0 → Type 0
Call A = Method NativeError Native A

unfoldable pub new_native : RendererConfig → Bool → Native
new_native config use_sandbox = record {
  config = config;
  state = uninitialized;
  process = none;
  frame_count = 0;
  frame_callbacks = [];
  error_message = "";
  use_sandbox = use_sandbox;
}

abbrev pub library_paths : Machine → List String
library_paths m =
    (m.home <> "/projects/linblock/vendor/android-emugl/build/libOpenglRender.so")
    ∷ "/usr/local/lib/linblock/libOpenglRender.so"
    ∷ "/usr/lib/linblock/libOpenglRender.so"
    ∷ "./libOpenglRender.so"
    ∷ []

-- `_find_library`
unfoldable pub find_library : Machine → Native → String
unfolding first_existing
find_library m r =
    if not (r.config.library_path == "") && m.exists r.config.library_path
    then r.config.library_path
    else first_existing m.exists (library_paths m) ""

abbrev pub process_config : Machine → Native → Config
process_config m r = record {
  width = r.config.width;
  height = r.config.height;
  library_path = find_library m r;
  socket_path = "";
  shm_name = "";
  use_sandbox = r.use_sandbox;
  log_path = "";
}

unfoldable pub initialized : Child.Host → Result Child.Error (Unit {0}) × Process → Call Unit
initialized host (ok _, p) r = (ok tt, record r { process = some p; state = ready })
initialized host (err e, p) r =
    let text = text_of host e in
    (err (init_error text), record r { process = some p; error_message = text; state = error })

unfoldable pub initialize : (pid : String) → Child.Host → Call Unit
unfolding find_library new_process start initialized
initialize pid host r =
    initialized host (start host (new_process pid (process_config host.machine r))) r

-- What becomes of a call of the process, which keeps its new state if it raises.
unfoldable pub passed_on : (Native → Native) → Result Child.Error (Unit {0}) × Process → Call Unit
passed_on then' (ok _, p) r = (ok tt, then' (record r { process = some p }))
passed_on then' (err e, p) r = (err (process_raises e), record r { process = some p })

abbrev pub count_frame : Native → Native
count_frame r = record r { frame_count = r.frame_count + 1 }

abbrev pub unchanged : Native → Native
unchanged r = r

unfoldable pub send_commands : Option Process → Child.Host → List ℕ → Call Unit
unfolding passed_on Child.process_commands
send_commands none host command_buffer r = (err not_ready, r)
send_commands (some p) host command_buffer r =
    passed_on count_frame (Child.process_commands host command_buffer p) r

unfoldable pub process_commands : Child.Host → List ℕ → Call Unit
unfolding send_commands
process_commands host command_buffer r =
    if is_ready r.state then send_commands r.process host command_buffer r else (err not_ready, r)

abbrev pub frame_data : Frame → FrameData
frame_data f = record {
  width = f.width;
  height = f.height;
  stride = f.width * 4;
  format = bgra8888;
  frame_number = f.frame_number;
  timestamp_ns = f.timestamp_ns;
  pixels = f.pixels;
}

unfoldable pub frame_result : Option Frame → Option FrameData
frame_result none = none
frame_result (some f) = some (frame_data f)

-- `cleanup` follows the frame that was read; where reading raises, it is left out.
unfoldable pub clean_after : Reading → Shm → Option FrameData × Shm
unfolding frame_result Display.cleanup
clean_after (err e, d) s = (none, s)
clean_after (ok f, d) s = (frame_result f, (Display.cleanup d s).1)

-- `read_frame` and `cleanup` of the display that was opened for this frame.
unfoldable pub read_and_clean :
    Result Display.Error (Unit {0}) × (ShmDisplay × Shm) → Option FrameData × Shm
unfolding clean_after read_frame
read_and_clean (err e, (d, s)) = (none, s)
read_and_clean (ok _, (d, s)) = clean_after (read_frame d s) s

unfoldable pub get_frame : Native → Shm → Option FrameData × Shm
unfolding read_and_clean open_region new_display
get_frame r s =
    if is_ready r.state && is_some r.process
    then read_and_clean (open_region new_display s)
    else (none, s)

-- With no process there is nothing to tell.
unfoldable pub resize_process : Option Process → Child.Host → ℕ → ℕ → Call Unit
unfolding passed_on Child.resize
resize_process none host width height r = (ok tt, r)
resize_process (some p) host width height r =
    passed_on unchanged (Child.resize host width height p) r

unfoldable pub resize : Child.Host → ℕ → ℕ → Call Unit
unfolding resize_process
resize host width height r =
    resize_process r.process host width height
      (record r { config = record r.config { width = width; height = height } })

unfoldable pub rotate_process : Option Process → Child.Host → ℕ → Call Unit
unfolding passed_on Child.set_rotation
rotate_process none host degrees r = (ok tt, r)
rotate_process (some p) host degrees r = passed_on unchanged (Child.set_rotation host degrees p) r

unfoldable pub set_rotation : Child.Host → ℕ → Call Unit
unfolding rotate_process
set_rotation host degrees r =
    if is_rotation degrees
    then rotate_process r.process host degrees r
    else (err (invalid_rotation degrees), r)

get_info : Native → RendererInfo
get_info r = record {
  state = r.state;
  width = r.config.width;
  height = r.config.height;
  frames_rendered = r.frame_count;
  gpu_vendor = "";
  gl_version = "";
  error_message = r.error_message;
}

add_frame_callback : ℕ → Native → Native
add_frame_callback callback r = record r { frame_callbacks = r.frame_callbacks ++ callback ∷ [] }

remove_frame_callback : ℕ → Native → Native
unfolding remove
remove_frame_callback callback r = record r { frame_callbacks = remove callback r.frame_callbacks }

-- The process is stopped.
unfoldable pub cleanup : Native → Native
cleanup r = record r { process = none; state = uninitialized; frame_callbacks = [] }
