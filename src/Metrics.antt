-- ===== src/Metrics.antt =====
-- src/metrics.rs: counters, latency and throughput trackers, and the health check.
pub mod Trackers
pub mod Collector
pub mod Health
pub mod Samples
pub mod Percentile
pub mod Throughput
pub mod Accounting
pub mod Status
mod Tests
