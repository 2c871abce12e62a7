-- ===== src/Gateway.antt =====
-- internal/gateway: frames, clients, sessions and the hub.
pub mod Frame
pub mod Client
pub mod Session
pub mod Hub
