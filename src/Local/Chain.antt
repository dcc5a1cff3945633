-- ===== src/Local/Chain.antt =====
-- local/blockchain.go: new subnets and chains on the nodes of a network.
pub mod Nodes
pub mod Waiting
pub mod Validators
pub mod Files
pub mod Tracking
pub mod Txs
pub mod Install
pub mod Blockchains
