-- ===== src/Health.antt =====
-- apps/agent/{include/agent,src}/health: health states, the checker and its failure counters.
pub mod Status
pub mod Checker
