-- ===== src/Trust.antt =====
-- server/trust: whether the data of a source, and of a scoring domain, may be used.
pub mod States
pub mod Gate
pub mod Domains
pub mod Staleness
pub mod Validators
mod Examples
