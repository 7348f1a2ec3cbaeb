-- ===== src/Gateway.antt =====
-- apps/server/server.js: the HTTP and socket handlers of the gateway.
pub mod Fields
pub mod State
pub mod Auth
pub mod Account
pub mod Files
pub mod Transport
pub mod Admin
pub mod Unauthorized
pub mod Sockets
pub mod Body
pub mod Relay
pub mod Sidecar
