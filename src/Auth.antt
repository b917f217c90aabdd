-- ===== src/Auth.antt =====
-- engine/internal/auth: the pairing code and the store of paired devices.
pub mod Totp
pub mod Store
