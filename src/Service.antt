-- ===== src/Service.antt =====
-- apps/agent/include/agent/service: identifiers, states and definitions of services.
pub mod Id
pub mod State
pub mod Exit
pub mod Status
pub mod Definition
pub mod Distinct
