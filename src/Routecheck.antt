-- ===== src/Routecheck.antt =====
-- cmd/routecheck: the tool that holds the routes of a manifest against those that an appliance maps.
pub mod Segments
pub mod Allow
pub mod Check
mod Examples
