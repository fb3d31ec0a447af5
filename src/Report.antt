-- ===== src/Report.antt =====
-- internal/report/report.go: the numbers of a run and how they are printed, the rows of its export, and what moved
-- between two runs.
pub mod Summary
pub mod Export
pub mod Print
pub mod Interval
pub mod Diff
pub mod Consistency
pub mod Cohorts
pub mod Exported
pub mod Live
mod Examples
