-- ===== src/Api.antt =====
-- apps/agent/src/api/agent_api.cpp: the agent's HTTP interface, from a request to the response.
pub mod Json
pub mod Query
pub mod Body
pub mod Responses
pub mod Handle
