-- ===== src/Server/Control.antt =====
-- The server object of server/server.go, and the handlers that start, extend and stop the network.
-- The caller of a handler holds `s.mu`, so a handler is one step.
pub mod Base
use cnr_sandbox.Base.{
  ℕ, suc, ◌%◌, ◌^◌, String, Bool, true, false, not, ◌&&◌, ◌||◌, Option, none, some, List, [], ◌∷◌,
  ◌==◌, ltb, if◌then◌else◌, has_value, is_empty, length, or_default,
}
use cnr_sandbox.Base.Dict.{Dict}
use cnr_sandbox.Base.Exec.{
  Error, Result, ok, err, crash, Exec, pure, fail, panic, lift, get, modify, ◌>>=◌, ◌>>◌, continue,
  message, for_each, err_already_bootstrapped, err_not_bootstrapped, err_not_enough_nodes,
  err_no_blockchain_spec,
}
use cnr_sandbox.Config.Specs.{SubnetSpec, BlockchainSpec}
use cnr_sandbox.Server.State.{ClusterInfo, Options, ServerNetwork, SubnetRequest, BlockchainRequest}
use cnr_sandbox.Server.Backend.{Backend}
use cnr_sandbox.Server.Network
use cnr_sandbox.Server.Network.{Managed, new_local_network}
use cnr_sandbox.Server.Specs.{check_exec_path, mkdir_with_timestamp, blockchain_specs, subnet_specs}
use cnr_sandbox.Server.Control.Base.{
  Server, outer, managed, bootstrapped, on_error, stop_and_remove_network, update_cluster_info,
  respond, set_health, new_cluster_info, with_cluster,
}

pub record StartRequest : Type 0 where
  pub exec_path : String
  pub num_nodes : Option ℕ
  pub plugin_dir : String
  pub blockchain_specs : List BlockchainRequest
  pub whitelisted_subnets : String
  pub root_data_dir : String
  pub global_node_config : String
  pub custom_node_configs : Dict String
  pub chain_configs : Dict String
  pub upgrade_configs : Dict String
  pub subnet_configs : Dict String
  pub reassign_ports_if_used : Bool
  pub dynamic_ports : Bool

module _ (B : Backend) where
  -- The root directory of a network, under the temporary directory where none is given.
  unfoldable pub make_root_dir : String → Exec B.State String
  unfolding mkdir_with_timestamp
  make_root_dir given =
      mkdir_with_timestamp B
        (B.join (if given == "" then B.temp_dir else given) "network-runner-root-data")

  -- The number of nodes: the custom node configs decide it where there are any.
  unfoldable pub node_count : StartRequest → ℕ
  node_count r =
      if is_empty r.custom_node_configs
      then or_default 5 r.num_nodes
      else length r.custom_node_configs % 2 ^ 32

  unfoldable pub start_options : Server B → StartRequest → String → Options
  unfolding node_count
  start_options s r root_data_dir = record {
    exec_path = r.exec_path;
    root_data_dir = root_data_dir;
    num_nodes = node_count r;
    track_subnets = r.whitelisted_subnets;
    redirect_nodes_output = s.redirect_nodes_output;
    global_node_config = r.global_node_config;
    plugin_dir = r.plugin_dir;
    custom_node_configs = r.custom_node_configs;
    chain_configs = r.chain_configs;
    upgrade_configs = r.upgrade_configs;
    subnet_configs = r.subnet_configs;
    snapshots_dir = s.snapshots_dir;
    reassign_ports_if_used = r.reassign_ports_if_used;
    dynamic_ports = r.dynamic_ports;
  }

  -- The network object and its cluster information, before any node.
  unfoldable pub install : Options → Exec (Server B) (Unit {0})
  install o = do
    modify (λ s. record s { cluster_info = some (new_cluster_info B o.root_data_dir) })
    lc ← outer B (new_local_network B o)
    modify (λ s. record s { network = some lc })

  unfoldable pub run_chains : List BlockchainSpec → Exec (Server B) (List String)
  run_chains specs =
      on_error B (managed B (Network.create_chains B specs))
        (λ e. stop_and_remove_network B (some e))

  -- `Start` once the request is checked and the root directory made.
  unfoldable pub launch :
      Options → List BlockchainSpec → Exec (Server B) (ClusterInfo × List String)
  launch o specs = do
    install o
    on_error B (managed B (Network.start B)) (λ e. stop_and_remove_network B none)
    chain_ids ← run_chains specs
    update_cluster_info B
    info ← respond B
    pure (info, chain_ids)

  -- `Start`. The response has the cluster information and the IDs of the chains.
  unfoldable pub start : StartRequest → Exec (Server B) (ClusterInfo × List String)
  start r s =
      if has_value s.network
      then fail err_already_bootstrapped s
      else if ltb (or_default 5 r.num_nodes) 1
      then fail err_not_enough_nodes s
      else (do
        lift (check_exec_path B r.exec_path s.outer)
        specs ← lift (blockchain_specs B r.blockchain_specs true r.plugin_dir s.outer)
        root ← outer B (make_root_dir r.root_data_dir)
        launch (start_options s r root) specs)
          s

  -- A requested subnet must be one of the cluster's.
  unfoldable subnet_exists : List String → Option String → Bool
  subnet_exists subnets none = true
  subnet_exists [] (some id) = false
  subnet_exists (subnet ∷ subnets) (some id) = subnet == id || subnet_exists subnets (some id)

  unfoldable pub check_subnets : List BlockchainSpec → List String → Result (Unit {0})
  unfolding subnet_exists
  check_subnets [] subnets = ok tt
  check_subnets (spec ∷ specs) subnets =
      let rest = check_subnets specs subnets in
      if subnet_exists subnets spec.subnet_id
      then rest
      else err (message "subnet id does not exits")

  unfoldable pub cluster_subnets : Option ClusterInfo → Result (List String)
  cluster_subnets none = crash "nil cluster info"
  cluster_subnets (some info) = ok info.subnets

  unfoldable pub network_plugin_dir : Option (ServerNetwork B.Handle) → String
  network_plugin_dir none = ""
  network_plugin_dir (some lc) = lc.plugin_dir

  unfoldable pub create_blockchains :
      List BlockchainRequest → Exec (Server B) (ClusterInfo × List String)
  create_blockchains requests = bootstrapped B λ s.
      if is_empty requests
      then fail err_no_blockchain_spec s
      else (do
        specs ← lift (blockchain_specs B requests false (network_plugin_dir s.network) s.outer)
        subnets ← lift (cluster_subnets s.cluster_info)
        lift (check_subnets specs subnets)
        set_health B false
        chain_ids ← run_chains specs
        update_cluster_info B
        info ← respond B
        pure (info, chain_ids))
          s

  unfoldable pub create_subnets : List SubnetRequest → Exec (Server B) (ClusterInfo × List String)
  create_subnets requests = bootstrapped B λ s.
      (do
        specs ← lift (subnet_specs B requests s.outer)
        set_health B false
        subnet_ids ←
            on_error B (managed B (Network.create_subnets B specs))
              (λ e. stop_and_remove_network B (some e))
        update_cluster_info B
        info ← respond B
        pure (info, subnet_ids))
        s

  -- `Stop` answers with the cluster information, which may be nil.
  unfoldable pub stop : Exec (Server B) (Option ClusterInfo)
  stop s = let t = stop_and_remove_network B none s in (ok t.cluster_info, t)
