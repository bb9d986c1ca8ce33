-- ===== src/Alerts.antt =====
-- apps/agent/{include/agent,src}/alerts: rules, their evaluation, and the life of an alert.
pub mod Rule
pub mod Event
pub mod Key
pub mod Evaluation
pub mod Evaluator
pub mod Manager
pub mod Listing
