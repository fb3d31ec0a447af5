-- ===== src/Metrics.antt =====
-- internal/metrics: the counters and the latency histogram of a run.
pub mod Histogram
pub mod Collector
pub mod Tallies
pub mod Unordered
pub mod Summaries
pub mod Quantiles
pub mod Snapshot
mod Examples
