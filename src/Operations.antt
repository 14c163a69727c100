-- ===== src/Operations.antt =====
-- operations.go: collection and snapshot operations, their durable handles and their waits.
pub mod Types
pub mod Discover
pub mod Handles
pub mod Collection
pub mod Known
pub mod Wait
pub mod Uploads
mod Examples
