-- ===== src/Host.antt =====
-- host.py: the commands that the host-side launcher builds.
pub mod Sandbox
pub mod Service
pub mod Logs
