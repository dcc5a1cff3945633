-- ===== src/Local/Chain/Install.antt =====
-- `CreateSubnets`, `installCustomChains`, `installSubnets` of local/blockchain.go, in parts.
pub mod Created
pub mod Installed
use cnr_sandbox.Base.{
  ◌<>◌, ◌%◌, ◌^◌, String, Option, none, some, List, [], ◌∷◌, if◌then◌else◌, is_empty, length, ◌&&◌,
}
use cnr_sandbox.Base.Dict.{Dict, lookup, keys}
use cnr_sandbox.Base.Exec.{
  Result, ok, crash, Exec, pure, fail, panic, lift, get, ◌>>=◌, ◌>>◌, for_each, bind_result,
}
use cnr_sandbox.Config.Specs.{SubnetSpec, BlockchainSpec, vm_id}
use cnr_sandbox.World.{World}
use cnr_sandbox.Local.State.{LocalNetwork, System, outside}
use cnr_sandbox.Local.Ledger.{Ledger}
use cnr_sandbox.Local.Health.{healthy}
use cnr_sandbox.Local.Chain.Nodes.{
  get_client_uri, all_with_participants, add_participants, get_subnet_validators_nodenames,
}
use cnr_sandbox.Local.Chain.Waiting.{wait_primary_validators, wait_subnet_validators, wait_log}
use cnr_sandbox.Local.Chain.Validators.{
  new_wallet, add_primary_validators, issue_subnets, add_subnet_validators,
}
use cnr_sandbox.Local.Chain.Files.{set_subnet_config_files, set_blockchain_config_files, text_of_id}
use cnr_sandbox.Local.Chain.Tracking.{restart_nodes}
use cnr_sandbox.Local.Chain.Txs.{
  BlockchainInfo, create_blockchain_txs, issue_blockchains, reload_vm_plugins,
  register_blockchain_aliases,
}

-- `network.SubnetSpec{}`
abbrev empty_spec : SubnetSpec
empty_spec = record { participants = []; subnet_config = none }

spec_or_empty : Option SubnetSpec → SubnetSpec
spec_or_empty none = empty_spec
spec_or_empty (some spec) = spec

-- The specs of the subnets that are to be created: those of the chains without a subnet.
unfoldable pub new_subnet_specs : List BlockchainSpec → List SubnetSpec
unfolding spec_or_empty
new_subnet_specs [] = []
new_subnet_specs (chain ∷ chains) = elim chain.subnet_id [
  | none ↦ spec_or_empty chain.subnet_spec ∷ new_subnet_specs chains
  | some id ↦ new_subnet_specs chains
]

module _ (W : World) (L : Ledger W) where
  preloaded : Option String → Result (List String) → Result (List String)
  preloaded none rest = rest
  preloaded (some id) rest = bind_result (L.id_of_text id) λ i. bind_result rest λ is. ok (i ∷ is)

  -- The subnets that the chains name.
  unfoldable pub preload_ids : List BlockchainSpec → Result (List String)
  unfolding preloaded
  preload_ids [] = ok []
  preload_ids (chain ∷ chains) = preloaded chain.subnet_id (preload_ids chains)

  with_subnet : BlockchainSpec → String → BlockchainSpec
  with_subnet chain id = record chain { subnet_id = some (L.id_text id) }

  assign_next :
      BlockchainSpec
      → Option String
      → List String
      → (List String → Result (List BlockchainSpec))
      → Result (List BlockchainSpec)
  unfolding with_subnet
  assign_next chain (some given) ids rest = bind_result (rest ids) λ chains. ok (chain ∷ chains)
  assign_next chain none [] rest = crash "index out of range"
  assign_next chain none (id ∷ ids) rest =
      bind_result (rest ids) λ chains. ok (with_subnet chain id ∷ chains)

  -- The new subnets go to the chains without one, in their order.
  unfoldable pub assign_subnets : List BlockchainSpec → List String → Result (List BlockchainSpec)
  unfolding assign_next
  assign_subnets [] ids = ok []
  assign_subnets (chain ∷ chains) ids =
      assign_next chain chain.subnet_id ids (λ more. assign_subnets chains more)

  -- What both installs do up to the transactions for subnets: participants that are not there
  -- become nodes, and all nodes become primary validators.
  unfoldable pub prepare_nodes : String → L.Wallet → List SubnetSpec → Exec (System W) (Unit {0})
  unfolding add_participants healthy add_primary_validators
  prepare_nodes uri wallet specs =
      add_participants W specs >> (healthy W L >> add_primary_validators W L uri wallet)

  -- `createSubnets` counts with a uint32.
  unfoldable pub create_subnet_txs : L.Wallet → List SubnetSpec → Exec (System W) (List String)
  unfolding issue_subnets
  create_subnet_txs wallet specs = outside W (issue_subnets W L (length specs % 2 ^ 32) wallet)

  -- A spec without participants gets the nodes that are there.
  unfoldable pub completed_specs : LocalNetwork W → List SubnetSpec → List SubnetSpec
  unfolding all_with_participants
  completed_specs ln specs = all_with_participants (L.sort (keys ln.nodes)) specs

  -- What `installSubnets` does with new subnets.
  unfoldable pub finish_subnets :
      String → L.Wallet → List String → List SubnetSpec → Exec (System W) (List String)
  unfolding set_subnet_config_files wait_primary_validators add_subnet_validators restart_nodes
      wait_subnet_validators
  finish_subnets uri wallet ids specs = do
    set_subnet_config_files W L ids specs
    wait_primary_validators W L uri
    add_subnet_validators W L uri wallet ids specs
    restart_nodes W L ids specs []
    wait_subnet_validators W L uri ids specs
    pure ids

  unfoldable pub install_specs : String → L.Wallet → List SubnetSpec → Exec (System W) (List String)
  unfolding prepare_nodes create_subnet_txs finish_subnets
  install_specs uri wallet specs = do
    prepare_nodes uri wallet specs
    ids ← create_subnet_txs wallet specs
    finish_subnets uri wallet ids specs

  unfoldable pub install_with : String → L.Wallet → List SubnetSpec → Exec (System W) (List String)
  unfolding completed_specs install_specs
  install_with uri wallet given s = install_specs uri wallet (completed_specs s.net given) s

  unfoldable pub install_subnets : List SubnetSpec → Exec (System W) (List String)
  unfolding get_client_uri new_wallet install_with
  install_subnets given = do
    uri ← get_client_uri W
    wallet ← outside W (new_wallet W L uri [])
    install_with uri wallet given

  -- `CreateSubnets`
  unfoldable pub create_subnets : List SubnetSpec → Exec (System W) (List String)
  unfolding install_subnets
  create_subnets = install_subnets

  info_of : BlockchainSpec → String → String → L.Tx → BlockchainInfo
  info_of chain vm subnet tx = record {
    chain_name = chain.vm_name;
    vm_id = vm;
    subnet_id = subnet;
    blockchain_id = L.tx_id tx;
  }

  infos_from :
      BlockchainSpec
      → String
      → String
      → List L.Tx
      → (List L.Tx → Result (List BlockchainInfo))
      → Result (List BlockchainInfo)
  unfolding info_of
  infos_from chain vm subnet [] rest = crash "index out of range"
  infos_from chain vm subnet (tx ∷ txs) rest =
      bind_result (rest txs) λ infos. ok (info_of chain vm subnet tx ∷ infos)

  -- The records of the chains, from the specs and the transactions.
  unfoldable pub chain_infos : List BlockchainSpec → List L.Tx → Result (List BlockchainInfo)
  unfolding vm_id infos_from
  chain_infos [] txs = ok []
  chain_infos (chain ∷ chains) txs = bind_result (vm_id L.padded_id chain.vm_name) λ vm.
      bind_result (bind_result (text_of_id chain.subnet_id) L.id_of_text)
        λ subnet. infos_from chain vm subnet txs (λ more. chain_infos chains more)

  -- No restart where there is no new subnet and no new config.
  unfoldable restart_if_needed :
      List String → List SubnetSpec → List String → Exec (System W) (Unit {0})
  unfolding restart_nodes
  restart_if_needed ids specs restart =
      if is_empty specs && is_empty restart then pure tt else restart_nodes W L ids specs restart

  -- The end of an install: the subnets have their validators, and the chains are issued.
  unfoldable pub issue_chains :
      String
      → L.Wallet
      → List String
      → List SubnetSpec
      → List BlockchainSpec
      → List L.Tx
      → Exec (System W) (List BlockchainInfo)
  unfolding wait_subnet_validators issue_blockchains chain_infos
  issue_chains uri wallet ids specs chains txs = do
    wait_subnet_validators W L uri ids specs
    outside W (issue_blockchains W L wallet chains txs)
    lift (chain_infos chains txs)

  -- From the new subnets on, with a subnet for every chain.
  unfoldable pub install_chains :
      String
      → L.Wallet
      → List String
      → List SubnetSpec
      → List BlockchainSpec
      → Exec (System W) (List BlockchainInfo)
  unfolding wait_primary_validators add_subnet_validators create_blockchain_txs
      set_blockchain_config_files restart_if_needed reload_vm_plugins issue_chains
  install_chains uri wallet ids specs chains = do
    wait_primary_validators W L uri
    add_subnet_validators W L uri wallet ids specs
    txs ← outside W (create_blockchain_txs W L wallet chains)
    restart ← set_blockchain_config_files W L chains txs ids specs []
    restart_if_needed ids specs restart
    reload_vm_plugins W L
    issue_chains uri wallet ids specs chains txs

  unfoldable pub install_chain_specs :
      String
      → L.Wallet
      → List BlockchainSpec
      → List SubnetSpec
      → Exec (System W) (List BlockchainInfo)
  unfolding prepare_nodes create_subnet_txs set_subnet_config_files assign_subnets install_chains
  install_chain_specs uri wallet given specs = do
    prepare_nodes uri wallet specs
    ids ← create_subnet_txs wallet specs
    set_subnet_config_files W L ids specs
    chains ← lift (assign_subnets given ids)
    install_chains uri wallet ids specs chains

  unfoldable pub install_chains_with :
      String → L.Wallet → List BlockchainSpec → Exec (System W) (List BlockchainInfo)
  unfolding new_subnet_specs completed_specs install_chain_specs
  install_chains_with uri wallet given s =
      install_chain_specs uri wallet given (completed_specs s.net (new_subnet_specs given)) s

  unfoldable pub install_custom_chains : List BlockchainSpec → Exec (System W) (List BlockchainInfo)
  unfolding get_client_uri preload_ids new_wallet install_chains_with
  install_custom_chains given = do
    uri ← get_client_uri W
    preload ← lift (preload_ids given)
    wallet ← outside W (new_wallet W L uri preload)
    install_chains_with uri wallet given
