-- ===== src/Envelope.antt =====
-- packages/protocol/src/protocol.js and the hybrid schemes of packages/crypto/src: the end-to-end
-- envelope, signed by its sender and sealed to its recipient.
pub mod Schemes
pub mod Hybrid
pub mod Seal
pub mod Opening
