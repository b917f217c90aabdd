-- ===== src/Engine.antt =====
-- engine/internal/engine: the orchestrator.
mod Model
pub mod Location
pub mod Geometry
pub mod Favorites
pub mod Drift
pub mod Tunnel
pub mod Health
pub mod Simulation
pub mod Patrol
pub mod Routes
pub mod Maintenance
unfoldable pub use Model.*
