-- ===== src/Drivers.antt =====
-- engine/internal/driver: what the two backends share, and the location worker of pymobiledevice3.
pub mod Mount
pub mod Session
pub mod Gate
pub mod Pmd3
pub mod Native
