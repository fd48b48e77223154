-- ===== src/Config/WireGuard.antt =====
-- `WireGuardConfig` of config.py
pub mod Endpoint
pub mod Network
pub mod Isolation
