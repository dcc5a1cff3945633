-- ===== src/Local/Chain/Txs.antt =====
-- The transactions of chains in local/blockchain.go: `createBlockchainTxs`, `createBlockchains`,
-- `reloadVMPlugins`, `RegisterBlockchainAliases`.
use cnr_sandbox.Base.{String, ◌<>◌, List, [], ◌∷◌, ◌==◌, if◌then◌else◌, is_empty}
use cnr_sandbox.Base.Exec.{
  Result, ok, err, crash, Exec, pure, lift, get, ◌>>=◌, ◌>>◌, for_each, wrap_exec, bind_result,
  message,
}
use cnr_sandbox.Config.Specs.{BlockchainSpec, vm_id}
use cnr_sandbox.World.{World}
use cnr_sandbox.Local.State.{LocalNode, System, outside}
use cnr_sandbox.Local.Ledger.{Ledger}
use cnr_sandbox.Local.Chain.Nodes.{node_uri}
use cnr_sandbox.Local.Chain.Files.{text_of_id}

-- `blockchainInfo`
pub record BlockchainInfo : Type 0 where
  pub chain_name : String
  pub vm_id : String
  pub subnet_id : String
  pub blockchain_id : String

module _ (W : World) (L : Ledger W) where
  -- Built, signed and accepted by the wallet's backend, and not issued yet.
  unfoldable create_blockchain_tx : L.Wallet → BlockchainSpec → Exec W.State L.Tx
  unfolding vm_id
  create_blockchain_tx wallet spec = do
    vm ← lift (vm_id L.padded_id spec.vm_name)
    subnet ← lift (bind_result (text_of_id spec.subnet_id) L.id_of_text)
    utx ←
        wrap_exec "failure generating create blockchain tx"
          (L.new_create_chain wallet subnet spec.genesis vm spec.vm_name)
    tx ← wrap_exec "failure signing create blockchain tx" (L.sign_unsigned wallet utx)
    wrap_exec "failure accepting create blockchain tx UTXOs" (L.accept_tx wallet tx)
    pure tx

  unfoldable pub create_blockchain_txs : L.Wallet → List BlockchainSpec → Exec W.State (List L.Tx)
  unfolding create_blockchain_tx
  create_blockchain_txs wallet [] = pure []
  create_blockchain_txs wallet (spec ∷ specs) = do
    tx ← create_blockchain_tx wallet spec
    txs ← create_blockchain_txs wallet specs
    pure (tx ∷ txs)

  same_id : L.Tx → String → Result (Unit {0})
  same_id tx id =
      if id == L.tx_id tx
      then ok tt
      else err (message "failure issuing create blockchain: txID differs from blockchainID")

  unfoldable issue_blockchain : L.Wallet → BlockchainSpec → L.Tx → Exec W.State (Unit {0})
  unfolding vm_id same_id
  issue_blockchain wallet spec tx = do
    vm ← lift (vm_id L.padded_id spec.vm_name)
    id ← wrap_exec "P-Wallet Tx Error IssueCreateBlockchainTx" (L.issue_tx wallet tx)
    lift (same_id tx id)

  missing_tx : L.Wallet → BlockchainSpec → Exec W.State (Unit {0})
  unfolding vm_id
  missing_tx wallet spec = do
    vm ← lift (vm_id L.padded_id spec.vm_name)
    lift (crash "index out of range")

  -- `createBlockchains`
  unfoldable pub issue_blockchains :
      L.Wallet → List BlockchainSpec → List L.Tx → Exec W.State (Unit {0})
  unfolding issue_blockchain missing_tx
  issue_blockchains wallet [] txs = pure tt
  issue_blockchains wallet (spec ∷ specs) [] = missing_tx wallet spec
  issue_blockchains wallet (spec ∷ specs) (tx ∷ txs) =
      issue_blockchain wallet spec tx >> issue_blockchains wallet specs txs

  no_failed_vms : List String → Result (Unit {0})
  no_failed_vms vms = if is_empty vms then ok tt else err (message "VMs failed to load")

  reload_node : (String × LocalNode W) → Exec W.State (Unit {0})
  unfolding node_uri no_failed_vms
  reload_node (name, node) =
      if node.paused
      then pure tt
      else (do failed ← L.load_vms (node_uri W node); lift (no_failed_vms failed))

  unfoldable pub reload_vm_plugins : Exec (System W) (Unit {0})
  unfolding reload_node for_each
  reload_vm_plugins = do s ← get; outside W (for_each s.net.nodes reload_node)

  alias_on : String → String → (String × LocalNode W) → Exec W.State (Unit {0})
  alias_on id chain_alias (name, node) =
      if node.paused
      then pure tt
      else wrap_exec ("failure to register blockchain alias " <> chain_alias <> " on node " <> name)
          (L.alias_chain node.api_port id chain_alias)

  register_first : List BlockchainInfo → String → Exec (System W) (Unit {0})
  unfolding alias_on for_each
  register_first [] chain_alias = lift (crash "index out of range")
  register_first (info ∷ infos) chain_alias = do
    s ← get
    outside W (for_each s.net.nodes (alias_on (L.id_text info.blockchain_id) chain_alias))

  rest_of : List BlockchainInfo → List BlockchainInfo
  rest_of [] = []
  rest_of (info ∷ infos) = infos

  -- Every chain with an alias gets it on every node that is not paused.
  unfoldable pub register_blockchain_aliases :
      List BlockchainInfo → List BlockchainSpec → Exec (System W) (Unit {0})
  unfolding register_first rest_of
  register_blockchain_aliases infos [] = pure tt
  register_blockchain_aliases infos (spec ∷ specs) =
      let rest = register_blockchain_aliases (rest_of infos) specs in
      if spec.blockchain_alias == ""
      then rest
      else (register_first infos spec.blockchain_alias >> rest)
