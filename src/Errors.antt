-- ===== src/Errors.antt =====
-- errors.go: the API's errors and their classification.
pub mod Types
pub mod Words
pub mod Messages
pub mod Facts
pub mod Classify
pub mod Response
mod Examples
