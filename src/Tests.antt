-- ===== src/Tests.antt =====
-- The theorems at concrete inputs, by the part of the program that they are about.
pub mod GpuPipe
pub mod Qemu
pub mod Config
pub mod Android
pub mod Emulation
pub mod QemuCore
pub mod Managers
pub mod GpuRenderer
pub mod VncClient
pub mod Profile
pub mod LoadOsPage
