-- ===== src/Emulation/GpuRenderer/Renderer.antt =====
-- What the two renderers of gpu_renderer/interface.py share. A callback is a number.
use linblock.Prelude.{ℕ, String, Bool, true, false, List, [], ◌∷◌, nat_beq, ◌||◌, if◌then◌else◌}

-- GPURendererError with the degrees of a rotation, RendererInitError, RendererNotReadyError, and what
-- the renderer process raises.
pub data Error {ℓ} (E : Type ℓ) : Type ℓ where
  invalid_rotation : ℕ → Error E
  init_error : String → Error E
  not_ready : Error E
  process_raises : E → Error E

pub data RendererState : Type 0 where
  uninitialized initializing ready rendering error : RendererState

abbrev pub is_ready : RendererState → Bool
is_ready ready = true
is_ready _ = false

pub data FrameFormat : Type 0 where
  rgba8888 bgra8888 rgb888 : FrameFormat

pub record FrameData : Type 0 where
  pub width : ℕ
  pub height : ℕ
  pub stride : ℕ
  pub format : FrameFormat
  pub frame_number : ℕ
  pub timestamp_ns : ℕ
  pub pixels : List ℕ

pub record RendererConfig : Type 0 where
  pub width : ℕ
  pub height : ℕ
  pub library_path : String
  pub use_software_renderer : Bool

pub record RendererInfo : Type 0 where
  pub state : RendererState
  pub width : ℕ
  pub height : ℕ
  pub frames_rendered : ℕ
  pub gpu_vendor : String
  pub gl_version : String
  pub error_message : String

abbrev pub is_rotation : ℕ → Bool
is_rotation degrees =
    nat_beq degrees 0 || (nat_beq degrees 90 || (nat_beq degrees 180 || nat_beq degrees 270))

-- `if callback in callbacks: callbacks.remove(callback)`
unfoldable pub remove : ℕ → List ℕ → List ℕ
remove callback [] = []
remove callback (c ∷ cs) =
    let rest = c ∷ remove callback cs in if nat_beq c callback then cs else rest
