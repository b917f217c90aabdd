-- ===== src/Tests/Engine.antt =====
-- The theorems on the engine in a concrete world.
mod World
mod Tunnel
mod Location
mod Journey
mod Maintenance
