-- ===== src/Emulation.antt =====
-- The emulation layer (src/modules/emulation).
pub mod GpuPipe
pub mod Qemu
pub mod DeviceManager
pub mod StorageManager
pub mod InputManager
pub mod EmulatorCore
pub mod NetworkManager
pub mod QemuCore
pub mod DisplayManager
pub mod GpuRenderer
pub mod VncClient
