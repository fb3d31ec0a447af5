-- ===== src/Scan.antt =====
-- internal/scan: which corpus entries a run covers, and the worker pool that covers them.
pub mod Recheck
pub mod Sample
pub mod Finish
pub mod Probed
pub mod Pool
mod Examples
