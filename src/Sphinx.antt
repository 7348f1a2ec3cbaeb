-- ===== src/Sphinx.antt =====
-- packages/sphinx/src/sphinx.js: the onion packet of the mix network.
pub mod Primitives
pub mod Cipher
pub mod Scalar
pub mod Header
pub mod Packet
pub mod Layers
pub mod Peeling
pub mod Exit
pub mod Path
pub mod Travel
pub mod Delivery
