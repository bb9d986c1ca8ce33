-- ===== src/Tests.antt =====
-- Concrete inputs, and each theorem with hypotheses applied to some of them.
pub mod Data
pub mod Recovery
pub mod Alerts
pub mod Health
pub mod Supervisor
pub mod Executor
pub mod LogReader
pub mod Monitor
pub mod Registry
pub mod Metrics
pub mod Api
pub mod HttpServer
