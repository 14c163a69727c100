-- ===== src/Nqe.antt =====
-- nqe_paged.go: reading all rows of a query.
pub mod Paged
mod Examples
