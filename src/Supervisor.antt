-- ===== src/Supervisor.antt =====
-- apps/agent/src/service/process_supervisor.cpp: the critical sections of a supervisor, and the
-- interleavings of an operation with the exit observer.
pub mod State
pub mod Sections
pub mod Run
pub mod Safety
