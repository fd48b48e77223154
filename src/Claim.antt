-- ===== src/Claim.antt =====
-- claim.py: host-socket claims, held while one runtime command runs.
pub mod Arguments
pub mod Locks
