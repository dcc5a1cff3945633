-- ===== src/Local/Chain/Blockchains.antt =====
-- `CreateBlockchains` and `waitForCustomChainsReady` of local/blockchain.go.
pub mod Paused
use cnr_sandbox.Base.{◌<>◌, String, Option, none, some, List, [], ◌∷◌, if◌then◌else◌}
use cnr_sandbox.Base.Dict.{lookup}
use cnr_sandbox.Base.Exec.{Exec, pure, panic, ◌>>=◌, ◌>>◌, for_each}
use cnr_sandbox.Config.Specs.{BlockchainSpec}
use cnr_sandbox.World.{World}
use cnr_sandbox.Local.State.{LocalNode, System}
use cnr_sandbox.Local.Ledger.{Ledger}
use cnr_sandbox.Local.Health.{healthy}
use cnr_sandbox.Local.Chain.Nodes.{get_subnet_validators_nodenames}
use cnr_sandbox.Local.Chain.Waiting.{wait_log}
use cnr_sandbox.Local.Chain.Txs.{BlockchainInfo, register_blockchain_aliases}
use cnr_sandbox.Local.Chain.Install.{install_custom_chains}

module _ (W : World) (L : Ledger W) where
  wait_on_node : String → Option (LocalNode W) → Exec (System W) (Unit {0})
  unfolding wait_log
  wait_on_node id none = panic "nil node"
  wait_on_node id (some node) =
      if node.paused then pure tt else wait_log W L (W.join node.logs_dir (L.id_text id <> ".log"))

  wait_chain_on : String → String → Exec (System W) (Unit {0})
  unfolding wait_on_node lookup
  wait_chain_on id name s = wait_on_node id (lookup name s.net.nodes) s

  wait_chain : BlockchainInfo → Exec (System W) (Unit {0})
  unfolding get_subnet_validators_nodenames for_each wait_chain_on
  wait_chain info = do
    names ← get_subnet_validators_nodenames W L info.subnet_id
    for_each names (wait_chain_on info.blockchain_id)

  -- Every validator of a chain's subnet that is not paused has a log of the chain.
  unfoldable wait_for_custom_chains_ready : List BlockchainInfo → Exec (System W) (Unit {0})
  unfolding healthy wait_chain for_each
  wait_for_custom_chains_ready infos = healthy W L >> for_each infos wait_chain

  unfoldable blockchain_ids : List BlockchainInfo → List String
  blockchain_ids [] = []
  blockchain_ids (info ∷ infos) = info.blockchain_id ∷ blockchain_ids infos

  -- `CreateBlockchains`
  unfoldable pub create_blockchains : List BlockchainSpec → Exec (System W) (List String)
  unfolding install_custom_chains wait_for_custom_chains_ready register_blockchain_aliases
      blockchain_ids
  create_blockchains chains = do
    infos ← install_custom_chains W L chains
    wait_for_custom_chains_ready infos
    register_blockchain_aliases W L infos chains
    pure (blockchain_ids infos)
