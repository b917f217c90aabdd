-- ===== src/Tests.antt =====
-- The theorems of the other modules at concrete states of the program.
mod Cluster
mod Server
mod Routing
mod Engine
mod Auth
mod Drivers
mod Messages
mod Certs
mod Backend
mod Wake
mod Settings
mod Polyline
mod Dispatch
mod Manage
