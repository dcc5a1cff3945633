-- ===== src/Local/Chain/Blockchains/Paused.antt =====
-- `CreateSubnets` and `CreateBlockchains` of local/blockchain.go where no node runs.
use cnr_sandbox.Base.{arith, String, true, none, List, [], ◌∷◌, ◌≡◌, refl, All}
use cnr_sandbox.Base.Exec.{crash, >>=-crash}
use cnr_sandbox.Base.Dict.{Dict}
use cnr_sandbox.Config.Specs.{SubnetSpec, BlockchainSpec}
use cnr_sandbox.World.{World}
use cnr_sandbox.Local.State.{LocalNode, System}
use cnr_sandbox.Local.Ledger.{Ledger}
use cnr_sandbox.Local.Chain.Nodes.{get_some_node, get_client_uri}
use cnr_sandbox.Local.Chain.Install.{install_subnets, create_subnets, install_custom_chains}
use cnr_sandbox.Local.Chain.Blockchains.{create_blockchains}

module _ (W : World) where
  abbrev pub AllPaused : Dict (LocalNode W) → Type 0
  AllPaused nodes = All (λ (e : String × LocalNode W). e.1.paused ≡ true) nodes

  no_node : (nodes : Dict (LocalNode W)) → AllPaused nodes → get_some_node W nodes ≡ none
  unfolding get_some_node
  no_node [] h = refl
  no_node ((name, node) ∷ nodes) h = ground (arith, no_node nodes h.1)

  no_uri : (s : System W) → AllPaused s.net.nodes → get_client_uri W s ≡ (crash "nil node", s)
  unfolding get_client_uri
  no_uri s h = rw (no_node s.net.nodes h) refl

module _ (W : World) (L : Ledger W) where
  install-AllPaused :
      (chains : List BlockchainSpec) (s : System W)
      → AllPaused W s.net.nodes
      → install_custom_chains W L chains s ≡ (crash "nil node", s)
  unfolding install_custom_chains
  install-AllPaused chains s h = >>=-crash (get_client_uri W) _ s s "nil node" (no_uri W s h)

  -- On a network whose nodes are all paused, as on one without nodes, `CreateSubnets` and `CreateBlockchains` do not come back with an error: they call a method of a nil node, which panics, before they have done anything.
  pub create-AllPaused :
      (specs : List SubnetSpec) (chains : List BlockchainSpec) (s : System W)
      → AllPaused W s.net.nodes
      → (create_subnets W L specs s ≡ (crash "nil node", s))
        × (create_blockchains W L chains s ≡ (crash "nil node", s))
  unfolding create_subnets install_subnets create_blockchains
  create-AllPaused specs chains s h = (
    >>=-crash (get_client_uri W) _ s s "nil node" (no_uri W s h),
    >>=-crash (install_custom_chains W L chains) _ s s "nil node" (install-AllPaused chains s h),
  )
