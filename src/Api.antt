-- ===== src/Api.antt =====
-- engine/internal/api: the messages of the WebSocket.
pub mod Validate
