-- ===== src/Local/Chain/Install/Installed.antt =====
-- What `installCustomChains` of local/blockchain.go has done when it returns without an error.
use cnr_sandbox.Base.{String, List, map, ◌≡◌, length, ◌%◌, ◌^◌}
use cnr_sandbox.Base.Exec.{ok, Exec}
use cnr_sandbox.Config.Specs.{SubnetSpec, BlockchainSpec}
use cnr_sandbox.World.{World}
use cnr_sandbox.Local.State.{System}
use cnr_sandbox.Local.Ledger.{Ledger}
use cnr_sandbox.Local.Chain.Nodes.{get_client_uri}
use cnr_sandbox.Local.Chain.Waiting.Reached.{AllValidated}
use cnr_sandbox.Local.Chain.Txs.{BlockchainInfo}
use cnr_sandbox.Local.Chain.Install.{new_subnet_specs, completed_specs}

abbrev vm_names : List BlockchainSpec → List String
vm_names chains = map (λ (c : BlockchainSpec). c.vm_name) chains

abbrev chain_names : List BlockchainInfo → List String
chain_names infos = map (λ (i : BlockchainInfo). i.chain_name) infos

module _ (W : World) (L : Ledger W) where
  -- The chains of a call: one for each spec and under its VM name, and every participant of the new
  -- subnets among the validators.
  abbrev AreIssued :
      String
      → List String
      → List SubnetSpec
      → List BlockchainSpec
      → List BlockchainInfo
      → System W
      → Type 0
  AreIssued uri ids specs chains infos t =
      (chain_names infos ≡ vm_names chains) × AllValidated W L uri ids specs t.net.nodes

  -- What an install has done, for the specs of new subnets and the client that it works with.
  abbrev AreReady :
      String → List BlockchainSpec → List SubnetSpec → List BlockchainInfo → System W → Type 0
  AreReady uri given specs infos t =
      (chain_names infos ≡ vm_names given)
      × ((ids : List String) × (length ids ≡ length specs % 2 ^ 32)
          × AllValidated W L uri ids specs t.net.nodes)

  -- What an install has done: a record for each chain, in order and under its VM name; a subnet for
  -- each chain that named none, with the participants of its spec or all nodes that there were, and
  -- all of them validators by the node that is asked.
  abbrev pub AreInstalled : List BlockchainSpec → List BlockchainInfo → System W → System W → Type 0
  AreInstalled given infos s t =
      (uri : String) × ((get_client_uri W s).0 ≡ ok uri)
      × (chain_names infos ≡ vm_names given)
      × ((ids : List String) × (length ids ≡ length (new_subnet_specs given) % 2 ^ 32)
          × AllValidated W L uri ids (completed_specs W L s.net (new_subnet_specs given))
              t.net.nodes)
