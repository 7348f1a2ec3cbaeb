-- ===== src/Server.antt =====
-- The gateway's helpers (apps/server/util.js, log.js, transport.js, turn.js).
pub mod Lockout
pub mod Limiter
pub mod Connections
pub mod Log
pub mod Password
pub mod Address
