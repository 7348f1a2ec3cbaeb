-- ===== src/Net.antt =====
-- packages/net/src: what travels between clients, gateway and nodes, the directory, and the client.
pub mod Serialize
pub mod Directory
pub mod Client
