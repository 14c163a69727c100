-- ===== src/Retry.antt =====
-- retry.go: the retry policy, its waits, the shared cooldown and the loop that sends a request.
pub mod Policy
pub mod After
pub mod Backoff
pub mod Cooldown
pub mod Send
pub mod Verdict
mod Examples
