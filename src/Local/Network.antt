-- ===== src/Local/Network.antt =====
-- The operations of `localNetwork` in local/network.go, by what they do.
pub mod Names
pub mod Add
pub mod Remove
pub mod Restart
pub mod Load
pub mod Closed
pub mod Phases
