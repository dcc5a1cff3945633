-- ===== src/Server/Network/Handle.antt =====
-- Which methods of server/network.go leave `lc.nw` as it is.
use cnr_sandbox.Base.{String, ◌≡◌, refl, ◌∙◌, List, [], ◌∷◌, arith}
use cnr_sandbox.Base.Dict.{Dict}
use cnr_sandbox.Base.Exec.{
  Exec, get, modify, lift, for_each, ◌>>◌, IsPreorder, Within, within_rules, Within-bind,
  Within-lift, Within-for_each,
}
use cnr_sandbox.Config.Specs.{SubnetSpec, BlockchainSpec}
use cnr_sandbox.Server.State.{CustomChainInfo}
use cnr_sandbox.Server.Backend.{NodeView, Backend}
use cnr_sandbox.Server.Network.{
  Managed, beyond, with_handle, record_node, record_nodes, update_node_info, record_participants,
  check_validators, update_subnet_info, record_chain_infos, record_subnets, check_custom_chains,
  custom_subnets, await_healthy, create_chains, create_subnets,
}

module _ (B : Backend) where
  -- `lc.nw` is what it was.
  abbrev pub SameHandle : Managed B → Managed B → Type 0
  SameHandle s t = t.lc.nw ≡ s.lc.nw

  SameHandle-order : IsPreorder SameHandle
  SameHandle-order = record { reflexive = λ s. refl; transitive = λ s t u p q. q ∙ p }

  get-SameHandle : Within SameHandle (get {S = Managed B})
  get-SameHandle = record { at = λ s. refl }

  pub beyond-SameHandle : {A : Type 0} (m : Exec B.State A) → Within SameHandle (beyond B m)
  beyond-SameHandle m = record { at = λ s. refl }

  pub with_handle-SameHandle :
      {A : Type 0} (op : B.Handle → Exec B.State A) → Within SameHandle (with_handle B op)
  unfolding with_handle
  with_handle-SameHandle op = record { at = λ s. ground arith }

  -- A change of the fields that are not `nw`, and what follows it.
  change-SameHandle :
      {A : Type 0} (f : Managed B → Managed B) (rest : Exec (Managed B) A)
      → ((s : Managed B) → SameHandle s (f s))
      → Within SameHandle rest
      → Within SameHandle (modify f >> rest)
  change-SameHandle f rest h k = record { at = λ s. k.at (f s) ∙ h s }

  ruleset same_handle =
      (within_rules, SameHandle-order, get-SameHandle, beyond-SameHandle, with_handle-SameHandle)

  record_nodes-SameHandle : (d : Dict NodeView) → Within SameHandle (record_nodes B d)
  unfolding record_nodes record_node
  record_nodes-SameHandle [] = search same_handle
  record_nodes-SameHandle (e ∷ d) =
      Within-bind SameHandle-order (lift (e.1.flag B.track_subnets_key)) _
        (Within-lift SameHandle-order (e.1.flag B.track_subnets_key))
        λ track_subnets.
          change-SameHandle (λ s. record s { lc = record_node B e.0 e.1 track_subnets s.lc })
            (record_nodes B d) (λ s. refl) (record_nodes-SameHandle d)

  pub update_node_info-SameHandle : Within SameHandle (update_node_info B)
  unfolding update_node_info
  update_node_info-SameHandle =
      Within-bind SameHandle-order (with_handle B B.get_all_nodes) _
        (with_handle-SameHandle B.get_all_nodes)
        λ nodes.
          change-SameHandle (λ s. record s { lc = record s.lc { node_infos = [] } })
            (record_nodes B nodes) (λ s. refl) (record_nodes-SameHandle nodes)

  record_participants-SameHandle :
      (node : NodeView) (subnet : String) → Within SameHandle (record_participants B node subnet)
  unfolding record_participants
  record_participants-SameHandle node subnet = record { at = λ s. ground arith }

  check_validators-SameHandle :
      (node : NodeView) (chain : String × CustomChainInfo)
      → Within SameHandle (check_validators B node chain)
  unfolding check_validators
  check_validators-SameHandle node chain = record { at = λ s. ground arith }

  record_chain_infos-SameHandle : (node : NodeView) → Within SameHandle (record_chain_infos B node)
  unfolding record_chain_infos
  record_chain_infos-SameHandle node = record { at = λ s. ground arith }

  record_subnets-SameHandle : (node : NodeView) → Within SameHandle (record_subnets B node)
  unfolding record_subnets
  record_subnets-SameHandle node =
      Within-bind SameHandle-order (beyond B (B.get_subnets node)) _
        (beyond-SameHandle (B.get_subnets node))
        λ ids.
          change-SameHandle (λ t. record t { lc = record t.lc { subnets = custom_subnets B ids } })
            (for_each (custom_subnets B ids) (record_participants B node)) (λ s. refl)
            (Within-for_each SameHandle-order (custom_subnets B ids) (record_participants B node)
              (record_participants-SameHandle node))

  check_custom_chains-SameHandle :
      (node : NodeView) → Within SameHandle (check_custom_chains B node)
  unfolding check_custom_chains
  check_custom_chains-SameHandle node = record {
    at = λ s.
        (Within-for_each SameHandle-order s.lc.custom_chains (check_validators B node)
            (check_validators-SameHandle node)).at
          s;
  }

  update_subnet_info-SameHandle : Within SameHandle (update_subnet_info B)
  unfolding update_subnet_info
  update_subnet_info-SameHandle =
      search
        (
          same_handle, record_chain_infos-SameHandle, record_subnets-SameHandle,
          check_custom_chains-SameHandle,
        )
        depth 12

  pub await_healthy-SameHandle : Within SameHandle (await_healthy B)
  unfolding await_healthy
  await_healthy-SameHandle =
      search (same_handle, update_node_info-SameHandle, update_subnet_info-SameHandle)

  pub create_chains-SameHandle :
      (specs : List BlockchainSpec) → Within SameHandle (create_chains B specs)
  unfolding create_chains
  create_chains-SameHandle specs = search (same_handle, await_healthy-SameHandle) depth 8

  pub create_subnets-SameHandle :
      (specs : List SubnetSpec) → Within SameHandle (create_subnets B specs)
  unfolding create_subnets
  create_subnets-SameHandle specs = search (same_handle, await_healthy-SameHandle) depth 8
