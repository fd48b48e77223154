-- ===== src/Tests.antt =====
-- Concrete runs of the model, which apply the theorems.
mod Keys
mod Claims
mod Configuration
mod Lifecycle
mod States
mod PeerKeys
mod Rules
mod Launches
