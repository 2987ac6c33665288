-- ===== src/Emulation/Qemu.antt =====
-- src/modules/emulation/emulator_core/internal/qemu_process.py: `QEMUConfig` and `QEMUProcess`.
pub mod Config
pub mod Command
pub mod Ports
pub mod Process
pub mod Start
pub mod Changes
pub mod Callbacks
