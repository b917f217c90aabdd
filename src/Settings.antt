-- ===== src/Settings.antt =====
-- engine/internal/settings and the engine's use of it: the persisted configuration.
pub mod Schema
pub mod Store
pub mod RoutingConfig
pub mod Live
