-- ===== src/Runtime.antt =====
-- runtime.py: the gateway inside its namespace. Its effects are recorded in a trace; what the
-- outside answers to each is a parameter.
pub mod Arguments
pub mod Machine
pub mod PeerStatus
pub mod Gateway
pub mod Start
pub mod Cleanup
pub mod Rollback
pub mod Order
