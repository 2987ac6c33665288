-- ===== src/Android.antt =====
-- The managers of the guest's applications, permissions and processes
-- (src/modules/android).
pub mod AppManager
pub mod AppStateStore
pub mod PermissionManager
pub mod ProcessManager
pub mod ImageManager
