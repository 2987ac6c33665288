-- ===== src/Emulation/GpuPipe.antt =====
-- src/modules/emulation/emulator_core/internal/gpu_pipe.py: the transports and `GPUCommandPipe`.
pub mod Transport
pub mod Framing
pub mod Pipe
pub mod Loop
