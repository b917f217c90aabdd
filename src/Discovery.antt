-- ===== src/Discovery.antt =====
-- engine/internal/discovery: the passive mDNS browses.
pub mod Wake
