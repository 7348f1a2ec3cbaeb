-- ===== src/Web.antt =====
-- apps/web/src: the helpers of the web client.
pub mod Pins
pub mod Messages
pub mod Text
pub mod Trust
pub mod Inbox
