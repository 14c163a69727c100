-- ===== src/Client.antt =====
-- client.go, auth.go, hooks.go and browser_csrf.go: the client, its requests and their credentials.
pub mod Auth
pub mod Url
pub mod Paths
pub mod Http
pub mod Config
pub mod Request
pub mod Csrf
pub mod Do
mod Examples
