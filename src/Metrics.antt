-- ===== src/Metrics.antt =====
-- apps/agent/{include/agent,src}/metrics: the metrics of a service.
pub mod Value
pub mod Sampler
pub mod Collector
pub mod Linux
