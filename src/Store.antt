-- ===== src/Store.antt =====
-- apps/server/store.js: the durable storage of the gateway. A table is a list of rows in the order of
-- insertion, and a query is the list operation that its SQL text says.
pub mod Tables
pub mod Accounts
pub mod Devices
pub mod Sessions
pub mod Mailbox
pub mod Files
pub mod Moderation
pub mod Counting
pub mod Run
pub mod Unique
pub mod Caps
pub mod WellFormed
pub mod Keeps
pub mod Reachable
pub mod Queue
pub mod Access
