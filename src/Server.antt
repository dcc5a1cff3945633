-- ===== src/Server.antt =====
-- The package `server`: the network it manages, and the handlers of its gRPC services.
pub mod State
pub mod Backend
pub mod Config
pub mod Specs
pub mod Network
pub mod Control
pub mod Nodes
pub mod Snapshots
pub mod Calls
pub mod Sound
pub mod Stream
pub mod Participants
