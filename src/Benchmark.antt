-- ===== src/Benchmark.antt =====
-- benchmarks/dns-sink: the DNS server that the benchmarks scan against.
pub mod DnsSink
pub mod Answered
pub mod Serve
mod Examples
