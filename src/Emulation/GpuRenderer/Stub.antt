-- ===== src/Emulation/GpuRenderer/Stub.antt =====
-- gpu_renderer/interface.py: `StubGPURenderer`. A callback raises nothing that is seen: `notified` is
-- what each has been told.
use linblock.Prelude.{
  ℕ, ◌+◌, ◌*◌, ◌<◌, ◌≡◌, refl, String, Option, none, some, List, [], ◌∷◌, ◌++◌, map, length, All,
  if◌then◌else◌, ok, err, Method,
}
use linblock.Emulation.GpuRenderer.Picture.{gradient, gradient_bounds}
use linblock.Emulation.GpuRenderer.Renderer.{
  Error, invalid_rotation, not_ready, RendererState, uninitialized, ready, is_ready, bgra8888,
  FrameData, RendererConfig, RendererInfo, is_rotation, remove,
}

-- What this renderer raises is all its own.
abbrev pub StubError : Type 0
StubError = Error (Unit {0})

pub record Stub : Type 0 where
  pub config : RendererConfig
  pub state : RendererState
  pub frame_count : ℕ
  pub frame_callbacks : List ℕ
  pub notified : List (ℕ × FrameData)
  pub rotation : ℕ
  pub error_message : String

abbrev Call : Type 0 → Type 0
Call A = Method StubError Stub A

new_stub : RendererConfig → Stub
new_stub config = record {
  config = config;
  state = uninitialized;
  frame_count = 0;
  frame_callbacks = [];
  notified = [];
  rotation = 0;
  error_message = "";
}

pub initialize : Stub → Stub
initialize r = record r { state = ready }

pub process_commands : List ℕ → Call Unit
process_commands command_buffer r =
    if is_ready r.state
    then (ok tt, record r { frame_count = r.frame_count + 1 })
    else (err not_ready, r)

abbrev pub test_frame : Stub → FrameData
test_frame r = record {
  width = r.config.width;
  height = r.config.height;
  stride = r.config.width * 4;
  format = bgra8888;
  frame_number = r.frame_count;
  timestamp_ns = 0;
  pixels = gradient r.config.width r.config.height 0;
}

pub get_frame : Stub → Option FrameData × Stub
get_frame r =
    let frame = test_frame r in
    if is_ready r.state
    then (some frame, record r { notified = r.notified ++ map (λ c. (c, frame)) r.frame_callbacks })
    else (none, r)

pub resize : ℕ → ℕ → Stub → Stub
resize width height r = record r { config = record r.config { width = width; height = height } }

pub set_rotation : ℕ → Call Unit
set_rotation degrees r =
    if is_rotation degrees
    then (ok tt, record r { rotation = degrees })
    else (err (invalid_rotation degrees), r)

get_state : Stub → RendererState
get_state r = r.state

get_info : Stub → RendererInfo
get_info r = record {
  state = r.state;
  width = r.config.width;
  height = r.config.height;
  frames_rendered = r.frame_count;
  gpu_vendor = "Stub";
  gl_version = "Stub 1.0";
  error_message = r.error_message;
}

pub add_frame_callback : ℕ → Stub → Stub
add_frame_callback callback r = record r { frame_callbacks = r.frame_callbacks ++ callback ∷ [] }

remove_frame_callback : ℕ → Stub → Stub
unfolding remove
remove_frame_callback callback r = record r { frame_callbacks = remove callback r.frame_callbacks }

cleanup : Stub → Stub
cleanup r = record r { state = uninitialized; frame_callbacks = [] }

-- After `initialize` and a `resize`, a renderer gives a frame of that width and height, whose pixels are four bytes each and all
-- below 256, and tells it to every callback in their order.
pub get_frame-resize :
    (width height : ℕ) (r : Stub)
    → (f : FrameData) × (get_frame (resize width height (initialize r)) ≡ (
      some f,
      record (resize width height (initialize r)) {
        notified = r.notified ++ map (λ c. (c, f)) r.frame_callbacks;
      },
    ))
      × ((f.width ≡ width) × (f.height ≡ height) × (f.stride ≡ width * 4))
      × (length f.pixels ≡ width * height * 4)
      × All (λ b. b < 256) f.pixels
unfolding get_frame resize initialize
get_frame-resize width height r =
    let (size, bytes) = gradient_bounds width height 0 in
    (test_frame (resize width height (initialize r)), refl, (refl, refl, refl), size, bytes)
