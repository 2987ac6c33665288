-- ===== src/Emulation/GpuRenderer.antt =====
-- The GPU renderer (src/modules/emulation/gpu_renderer): the renderer process and its worker, the
-- messages between them, and the shared memory through which frames go to the display.
pub mod Header
pub mod Region
pub mod ShmDisplay
pub mod Message
pub mod Picture
pub mod Worker
pub mod Process
pub mod Launcher
pub mod Link
pub mod Renderer
pub mod Stub
pub mod Native
pub mod FrameSource
pub mod Sandbox
