-- ===== src/Command.antt =====
-- cmd/wwwscan: the commands, from their flags to the calls of the packages.
pub mod Texts
pub mod Servers
pub mod Explain
pub mod World
pub mod Plan
pub mod Selection
pub mod Steps
pub mod Rerun
pub mod Started
pub mod Kept
pub mod Finish
pub mod Reports
pub mod Provenance
pub mod Bench
pub mod BenchRows
pub mod Slices
pub mod Main
pub mod Usage
mod Examples
mod Witnesses
mod ReportWitness
mod KeptWitness
mod CompleteWitness
