-- ===== src/Server.antt =====
-- engine/internal/server: the pairing throttle, the rate limiter of a connection and the hub that
-- fans events out to the WebSocket clients, the guard of the requests and the pairing of devices.
pub mod PairThrottle
pub mod RateLimiter
pub mod Hub
pub mod Access
pub mod Pairing
pub mod Manage
pub mod Dispatch
