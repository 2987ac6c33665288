-- ===== src/Infrastructure.antt =====
-- The infrastructure layer (src/modules/infrastructure).
pub mod ConfigManager
pub mod EventBus
