-- ===== src/Collector.antt =====
-- pkg/collector: the collector of events and what it makes of them.
pub mod Distribution
pub mod Observe
pub mod Curve
pub mod Submit
pub mod Aggregate
pub mod Examples
