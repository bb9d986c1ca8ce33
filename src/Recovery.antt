-- ===== src/Recovery.antt =====
-- apps/agent/{include/agent,src}/recovery: the recovery policy and the restart manager.
pub mod Policy
pub mod Supervision
pub mod State
pub mod Manager
