-- ===== src/Server/Network.antt =====
-- `localNetwork` of server/network.go: the methods that the handlers call.
pub mod Handle
use cnr_sandbox.Base.{
  String, ◌<>◌, Bool, false, none, some, List, [], ◌∷◌, ◌++◌, ◌==◌, ◌||◌, if◌then◌else◌, is_empty,
  length, ◌=?◌,
}
use cnr_sandbox.Base.Dict.{Dict, insert, keys}
use cnr_sandbox.Base.Exec.{
  Result, ok, crash, Exec, pure, fail, panic, lift, get, modify, ◌>>=◌, ◌>>◌, message, for_each,
}
use cnr_sandbox.Config.Specs.{SubnetSpec, BlockchainSpec}
use cnr_sandbox.Server.State.{NodeInfo, CustomChainInfo, Options, ServerNetwork}
use cnr_sandbox.Server.Backend.{NodeView, Blockchain, Backend}
use cnr_sandbox.Server.Config.{create_config}

module _ (B : Backend) where
  -- The server's network and everything that it acts on.
  pub record Managed : Type 0 where
    pub lc : ServerNetwork B.Handle
    pub outer : B.State

  abbrev pub beyond : {A : Type 0} → Exec B.State A → Exec Managed A
  beyond m s = let (r, o) = m s.outer in (r, record s { outer = o })

  -- `lc.nw` is used as it is: a nil network is a nil dereference.
  unfoldable pub with_handle : {A : Type 0} → (B.Handle → Exec B.State A) → Exec Managed A
  with_handle op s = elim s.lc.nw [ none ↦ panic "nil network" s | some h ↦ beyond (op h) s ]

  unfoldable pub new_local_network : Options → Exec B.State (ServerNetwork B.Handle)
  new_local_network o = do
    B.make_logger o.root_data_dir
    pure (record {
      exec_path = o.exec_path;
      plugin_dir = o.plugin_dir;
      nw = none;
      node_infos = [];
      options = o;
      custom_chains = [];
      stop_called = false;
      subnets = [];
      subnet_participants = [];
    })

  unfoldable node_info : NodeView → String → NodeInfo
  node_info v track_subnets = record {
    name = v.name;
    uri = "http://" <> v.url <> ":" <> B.print_nat v.api_port;
    id = v.node_id;
    exec_path = v.binary_path;
    log_dir = v.logs_dir;
    db_dir = v.db_dir;
    config = v.config_file;
    plugin_dir = v.plugin_dir;
    whitelisted_subnets = track_subnets;
    paused = v.paused;
  }

  -- A node becomes an info, and gives the default paths where the network has none.
  unfoldable pub record_node :
      String → NodeView → String → ServerNetwork B.Handle → ServerNetwork B.Handle
  unfolding insert node_info
  record_node name v track_subnets lc = record lc {
    node_infos = insert name (node_info v track_subnets) lc.node_infos;
    exec_path = if lc.exec_path == "" then v.binary_path else lc.exec_path;
    plugin_dir = if lc.plugin_dir == "" then v.plugin_dir else lc.plugin_dir;
  }

  unfoldable pub record_nodes : Dict NodeView → Exec Managed (Unit {0})
  unfolding record_node
  record_nodes [] = pure tt
  record_nodes (e ∷ nodes) = do
    track_subnets ← lift (e.1.flag B.track_subnets_key)
    modify (λ s. record s { lc = record_node e.0 e.1 track_subnets s.lc })
    record_nodes nodes

  unfoldable pub update_node_info : Exec Managed (Unit {0})
  update_node_info = do
    nodes ← with_handle B.get_all_nodes
    modify (λ s. record s { lc = record s.lc { node_infos = [] } })
    record_nodes nodes

  abbrev is_primary_chain : Blockchain → Bool
  is_primary_chain c = c.name == "C-Chain" || c.name == "X-Chain"

  unfoldable chain_info : Blockchain → CustomChainInfo
  chain_info c = record {
    chain_name = c.name;
    vm_id = c.vm_id;
    subnet_id = c.subnet_id;
    chain_id = c.id;
  }

  unfoldable record_chains : List Blockchain → Dict CustomChainInfo → Dict CustomChainInfo
  unfolding insert chain_info
  record_chains [] infos = infos
  record_chains (c ∷ cs) infos =
      record_chains cs (if is_primary_chain c then infos else insert c.id (chain_info c) infos)

  unfoldable pub custom_subnets : List String → List String
  custom_subnets [] = []
  custom_subnets (id ∷ ids) =
      let rest = custom_subnets ids in if id == B.platform_chain_id then rest else id ∷ rest

  -- The names of the nodes with a validator's ID.
  unfoldable names_of : String → Dict NodeInfo → List String
  names_of id [] = []
  names_of id ((name, info) ∷ infos) =
      let rest = names_of id infos in if info.id == id then name ∷ rest else rest

  unfoldable pub participants : List String → Dict NodeInfo → List String
  unfolding names_of
  participants [] infos = []
  participants (id ∷ validators) infos = names_of id infos ++ participants validators infos

  unfoldable pub record_participants : NodeView → String → Exec Managed (Unit {0})
  unfolding participants insert
  record_participants node subnet = do
    validators ← beyond (B.get_current_validators node subnet)
    modify (λ s. record s {
      lc = record s.lc {
        subnet_participants =
            insert subnet (participants validators s.lc.node_infos) s.lc.subnet_participants;
      };
    })

  unfoldable pub check_validators : NodeView → String × CustomChainInfo → Exec Managed (Unit {0})
  unfolding participants
  check_validators node chain = do
    validators ← beyond (B.get_current_validators node chain.1.subnet_id)
    s ← get
    if length (participants validators s.lc.node_infos) =? length validators
        then pure tt
        else fail (message "not all subnet validators are in network for subnet")

  -- `allNodeNames[0]` of the sorted names.
  unfoldable pub first_name : List String → Result String
  first_name [] = crash "index out of range"
  first_name (name ∷ names) = ok name

  -- The custom chains that the P-Chain knows.
  unfoldable pub record_chain_infos : NodeView → Exec Managed (Unit {0})
  unfolding record_chains
  record_chain_infos node = do
    chains ← beyond (B.get_blockchains node)
    modify (λ t. record t {
      lc = record t.lc { custom_chains = record_chains chains t.lc.custom_chains };
    })

  -- The custom subnets, and the nodes that validate them.
  unfoldable pub record_subnets : NodeView → Exec Managed (Unit {0})
  unfolding custom_subnets record_participants
  record_subnets node = do
    ids ← beyond (B.get_subnets node)
    modify (λ t. record t { lc = record t.lc { subnets = custom_subnets ids } })
    for_each (custom_subnets ids) (record_participants node)

  unfoldable pub check_custom_chains : NodeView → Exec Managed (Unit {0})
  unfolding check_validators
  check_custom_chains node = do t ← get; for_each t.lc.custom_chains (check_validators node)

  unfoldable pub update_subnet_info : Exec Managed (Unit {0})
  update_subnet_info = do
    s ← get
    name ← lift (first_name (B.sort (keys s.lc.node_infos)))
    node ← with_handle (λ h. B.get_node h name)
    record_chain_infos node
    record_subnets node
    check_custom_chains node

  unfoldable pub await_healthy : Exec Managed (Unit {0})
  await_healthy = do with_handle B.healthy; update_node_info; update_subnet_info

  unfoldable pub start : Exec Managed (Unit {0})
  start = do
    s ← get
    cfg ← beyond (create_config B s.lc.options s.lc.exec_path s.lc.plugin_dir)
    h ← beyond (B.new_network cfg s.lc.options)
    modify (λ t. record t { lc = record t.lc { nw = some h } })
    update_node_info

  unfoldable pub load_snapshot : String → Exec Managed (Unit {0})
  load_snapshot name = do
    s ← get
    let lc = s.lc
    flags ← lift (
        if lc.options.global_node_config == ""
        then ok []
        else B.parse_json lc.options.global_node_config)
    h ← beyond (B.new_network_from_snapshot name lc.options lc.exec_path lc.plugin_dir flags)
    modify (λ t. record t { lc = record t.lc { nw = some h } })
    update_node_info

  unfoldable pub create_chains : List BlockchainSpec → Exec Managed (List String)
  create_chains specs = if is_empty specs then pure [] else do
    await_healthy
    chain_ids ← with_handle (λ h. B.create_blockchains h specs)
    await_healthy
    pure chain_ids

  unfoldable pub create_subnets : List SubnetSpec → Exec Managed (List String)
  create_subnets specs = if is_empty specs then pure [] else do
    await_healthy
    subnet_ids ← with_handle (λ h. B.create_subnets h specs)
    await_healthy
    pure subnet_ids

  -- `Stop`: once, and the error of the network is only printed.
  unfoldable pub stop : ServerNetwork B.Handle → B.State → B.State
  stop lc o = if lc.stop_called then o else elim lc.nw [ none ↦ o | some h ↦ (B.stop h o).1 ]
