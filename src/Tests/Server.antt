-- ===== src/Tests/Server.antt =====
-- The package `server` over the small network.
use cnr_sandbox.Base.{ℕ, true, false, Option, none, some, [], ◌∷◌, ◌≡◌, refl}
use cnr_sandbox.Base.Exec.{Error, message}
use cnr_sandbox.Server.State.{ClusterInfo, Options, ServerNetwork}
use cnr_sandbox.Server.Network
use cnr_sandbox.Server.Network.{
  new_local_network, update_node_info, with_handle, record_nodes, create_chains,
}
use cnr_sandbox.Server.Specs.{check_exec_path, blockchain_specs, mkdir_with_timestamp}
use cnr_sandbox.Local.Network.Restart.{assign_all}
use cnr_sandbox.Server.Config.{
  create_config, base_flags, configure_node, configure_nodes, parse_optional,
}
use cnr_sandbox.Server.Control
use cnr_sandbox.Server.Control.{
  StartRequest, make_root_dir, launch, install, start_options, run_chains, node_count,
}
use cnr_sandbox.Server.Control.Base.{
  on_error, managed, run_on, update_cluster_info, update_from, with_cluster, change_cluster,
  respond, copy_of, deep_copy, new_cluster_info, Server, stop_and_remove_network,
}
use cnr_sandbox.Server.Snapshots.{answered, again, wait_round}
use cnr_sandbox.Server.Snapshots.Waiting.{wait_after_stop, wait_round_again}
use cnr_sandbox.Server.Calls
use cnr_sandbox.Server.Calls.{serve, outcome, Survives, Reaches}
use cnr_sandbox.Server.Sound.{IsSound, SoundPair}
use cnr_sandbox.Server.Sound.Reachable.{reachable-IsSound}
use cnr_sandbox.Tests.Surroundings.{backend, new_info}

abbrev pub server : Server backend
server = record {
  cluster_info = none;
  network = none;
  async_err = none;
  redirect_nodes_output = false;
  snapshots_dir = "snapshots";
  outer = 0;
}

abbrev request : StartRequest
request = record {
  exec_path = "bin";
  num_nodes = some 1;
  plugin_dir = "";
  blockchain_specs = [];
  whitelisted_subnets = "";
  root_data_dir = "root";
  global_node_config = "";
  custom_node_configs = [];
  chain_configs = [];
  upgrade_configs = [];
  subnet_configs = [];
  reassign_ports_if_used = false;
  dynamic_ports = false;
}

server-IsSound : IsSound backend server
unfolding IsSound SoundPair
server-IsSound = tt

start-Survives : Survives backend (serve backend (Calls.start request) server).0
unfolding Survives serve outcome Control.start check_exec_path blockchain_specs make_root_dir launch
    install new_local_network on_error managed run_on Network.start create_config start_options
    update_node_info with_handle record_nodes run_chains create_chains update_cluster_info
    update_from with_cluster change_cluster respond copy_of deep_copy new_cluster_info
    mkdir_with_timestamp configure_nodes configure_node assign_all node_count base_flags
    parse_optional
start-Survives = tt

starts : Reaches backend server (serve backend (Calls.start request) server).1
starts = Calls.then server (Calls.start request) Calls.here start-Survives

reachable-IsSound_example : IsSound backend (serve backend (Calls.start request) server).1
reachable-IsSound_example =
    reachable-IsSound backend server (serve backend (Calls.start request) server).1 server-IsSound
      starts

abbrev pub options : Options
options = record {
  exec_path = "bin";
  root_data_dir = "root";
  num_nodes = 1;
  track_subnets = "";
  redirect_nodes_output = false;
  global_node_config = "";
  plugin_dir = "";
  custom_node_configs = [];
  chain_configs = ("C", "{}") ∷ [];
  upgrade_configs = [];
  subnet_configs = [];
  snapshots_dir = "snapshots";
  reassign_ports_if_used = false;
  dynamic_ports = false;
}

abbrev network : ServerNetwork ℕ
network = record {
  exec_path = "bin";
  plugin_dir = "";
  nw = some 7;
  node_infos = [];
  options = options;
  custom_chains = [];
  stop_called = false;
  subnets = [];
  subnet_participants = [];
}

abbrev busy : Server backend
busy = record server { network = some network; cluster_info = some (new_info "root") }

abbrev reason : Error
reason = message "unhealthy"

wait_after_stop_example :
    (answer : Option ClusterInfo) × (x : Error) × ((wait_round backend false false
        (stop_and_remove_network backend (some reason) busy)).0
      ≡ answered answer (some x))
wait_after_stop_example = wait_after_stop backend (some reason) false false busy

waits : (wait_round backend false false busy).0 ≡ again
unfolding wait_round
waits = refl

wait_round_again_example :
    (false ≡ false)
    × (busy.async_err ≡ none)
    × (true ≡ true)
    × ((info : ClusterInfo) × (some (new_info "root") ≡ some info)
        × (info.custom_chains_healthy ≡ false))
    × ((wait_round backend false false busy).1 ≡ busy)
wait_round_again_example = wait_round_again backend false false busy waits
