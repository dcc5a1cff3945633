-- ===== src/Tests.antt =====
-- Concrete surroundings for the theorems, runs of the code in them, and an application of each
-- theorem.
pub mod Commas
pub mod Ledger
mod Chain
mod Stream
pub mod Surroundings
pub mod Local
mod Files
pub mod Server
mod Client
mod Defaults
