-- ===== src/Client.antt =====
-- The requests that client/client.go makes: the options of a call (`Op`, `OpOption` and the `With`
-- functions), `Start`, `LoadSnapshot`, `AddNode` and `RestartNode`. An optional field of a request
-- that is not set is read as its zero value, as the getters of the generated messages do; the calls
-- over the network are left out.
pub mod Sent
use cnr_sandbox.Base.{
  ℕ, String, Bool, true, false, Option, none, some, List, [], ◌∷◌, ◌==◌, if◌then◌else◌, or_default,
}
use cnr_sandbox.Base.Dict.{Dict}
use cnr_sandbox.Config.{RestartOptions}
use cnr_sandbox.Server.State.{BlockchainRequest}
use cnr_sandbox.Server.Control.{StartRequest}
use cnr_sandbox.Server.Nodes.{AddNodeRequest}
use cnr_sandbox.Server.Snapshots.{LoadRequest}

pub record Op : Type 0 where
  pub num_nodes : ℕ
  pub exec_path : String
  pub track_subnets : String
  pub global_node_config : String
  pub root_data_dir : String
  pub plugin_dir : String
  pub blockchain_specs : List BlockchainRequest
  pub custom_node_configs : Dict String
  pub num_subnets : ℕ
  pub chain_configs : Dict String
  pub upgrade_configs : Dict String
  pub subnet_configs : Dict String
  pub reassign_ports_if_used : Bool
  pub dynamic_ports : Bool

pub data OpOption : Type 0 where
  with_global_node_config : String → OpOption
  with_num_nodes : ℕ → OpOption
  with_exec_path : String → OpOption
  with_whitelisted_subnets : String → OpOption
  with_track_subnets : String → OpOption
  with_root_data_dir : String → OpOption
  with_plugin_dir : String → OpOption
  with_blockchain_specs : List BlockchainRequest → OpOption
  with_chain_configs : Dict String → OpOption
  with_upgrade_configs : Dict String → OpOption
  with_subnet_configs : Dict String → OpOption
  with_custom_node_configs : Dict String → OpOption
  with_num_subnets : ℕ → OpOption
  with_reassign_ports_if_used : Bool → OpOption
  with_dynamic_ports : Bool → OpOption

-- `opt(op)`
unfoldable pub apply_opt : OpOption → Op → Op
apply_opt (with_global_node_config v) op = record op { global_node_config = v }
apply_opt (with_num_nodes v) op = record op { num_nodes = v }
apply_opt (with_exec_path v) op = record op { exec_path = v }
apply_opt (with_whitelisted_subnets v) op = record op { track_subnets = v }
apply_opt (with_track_subnets v) op = record op { track_subnets = v }
apply_opt (with_root_data_dir v) op = record op { root_data_dir = v }
apply_opt (with_plugin_dir v) op = record op { plugin_dir = v }
apply_opt (with_blockchain_specs v) op = record op { blockchain_specs = v }
apply_opt (with_chain_configs v) op = record op { chain_configs = v }
apply_opt (with_upgrade_configs v) op = record op { upgrade_configs = v }
apply_opt (with_subnet_configs v) op = record op { subnet_configs = v }
apply_opt (with_custom_node_configs v) op = record op { custom_node_configs = v }
apply_opt (with_num_subnets v) op = record op { num_subnets = v }
apply_opt (with_reassign_ports_if_used v) op = record op { reassign_ports_if_used = v }
apply_opt (with_dynamic_ports v) op = record op { dynamic_ports = v }

unfoldable pub apply_opts : List OpOption → Op → Op
unfolding apply_opt
apply_opts [] op = op
apply_opts (opt ∷ opts) op = apply_opts opts (apply_opt opt op)

-- `&Op{}`
abbrev pub empty_op : Op
empty_op = record {
  num_nodes = 0;
  exec_path = "";
  track_subnets = "";
  global_node_config = "";
  root_data_dir = "";
  plugin_dir = "";
  blockchain_specs = [];
  custom_node_configs = [];
  num_subnets = 0;
  chain_configs = [];
  upgrade_configs = [];
  subnet_configs = [];
  reassign_ports_if_used = false;
  dynamic_ports = false;
}

-- A field that is set only where its value is not empty, as its getter reads it.
unfoldable pub sent : String → String
sent v = or_default "" (if v == "" then none else some v)

unfoldable pub start_request : String → List OpOption → StartRequest
unfolding apply_opts sent
start_request exec_path opts =
    let op = apply_opts opts (record empty_op { num_nodes = 5 }) in
    record {
      exec_path = exec_path;
      num_nodes = some op.num_nodes;
      plugin_dir = sent op.plugin_dir;
      blockchain_specs = op.blockchain_specs;
      whitelisted_subnets = sent op.track_subnets;
      root_data_dir = sent op.root_data_dir;
      global_node_config = sent op.global_node_config;
      custom_node_configs = op.custom_node_configs;
      chain_configs = op.chain_configs;
      upgrade_configs = op.upgrade_configs;
      subnet_configs = op.subnet_configs;
      reassign_ports_if_used = op.reassign_ports_if_used;
      dynamic_ports = op.dynamic_ports;
    }

unfoldable load_request : String → List OpOption → LoadRequest
unfolding apply_opts sent
load_request snapshot_name opts =
    let op = apply_opts opts empty_op in
    record {
      snapshot_name = snapshot_name;
      exec_path = sent op.exec_path;
      plugin_dir = sent op.plugin_dir;
      root_data_dir = sent op.root_data_dir;
      chain_configs = op.chain_configs;
      upgrade_configs = op.upgrade_configs;
      subnet_configs = op.subnet_configs;
      global_node_config = sent op.global_node_config;
      reassign_ports_if_used = op.reassign_ports_if_used;
    }

-- A map in a message; one without entries arrives as nil.
unfoldable map_field : Dict String → Option (Dict String)
map_field [] = none
map_field (entry ∷ entries) = some (entry ∷ entries)

unfoldable add_node_request : String → String → List OpOption → AddNodeRequest
unfolding apply_opts sent map_field
add_node_request name exec_path opts =
    let op = apply_opts opts empty_op in
    record {
      name = name;
      exec_path = exec_path;
      node_config = op.global_node_config;
      plugin_dir = sent op.plugin_dir;
      chain_configs = map_field op.chain_configs;
      upgrade_configs = map_field op.upgrade_configs;
      subnet_configs = map_field op.subnet_configs;
    }

-- The options of `RestartNode`, beside the name of the node.
unfoldable restart_options : List OpOption → RestartOptions
unfolding apply_opts sent
restart_options opts =
    let op = apply_opts opts empty_op in
    record {
      binary_path = sent op.exec_path;
      plugin_dir = sent op.plugin_dir;
      track_subnets = sent op.track_subnets;
      chain_configs = op.chain_configs;
      upgrade_configs = op.upgrade_configs;
      subnet_configs = op.subnet_configs;
    }
