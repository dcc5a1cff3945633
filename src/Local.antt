-- ===== src/Local.antt =====
-- The package `local`: a network whose nodes are processes of this machine.
pub mod State
pub mod Ports
pub mod Files
pub mod Args
pub mod Network
pub mod Snapshot
pub mod Defaults
pub mod Process
pub mod Ledger
pub mod Health
pub mod Chain
pub mod Peers
