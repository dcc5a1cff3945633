-- ===== src/Server/Backend.antt =====
-- What the package `server` calls: the package `local` through `network.Network` and `node.Node`,
-- the P-Chain of a node, the Go library. `State` is everything that these calls act on.
use cnr_sandbox.Base.{ℕ, String, Bool, List}
use cnr_sandbox.Base.Dict.{Dict}
use cnr_sandbox.Base.Exec.{Result, Exec}
use cnr_sandbox.Config.{Value, NodeConfig, NetworkConfig, RestartOptions}
use cnr_sandbox.World.{Stat}
use cnr_sandbox.Config.Specs.{SubnetSpec, BlockchainSpec}
use cnr_sandbox.Server.State.{ClusterInfo, Options}

-- The getters of `node.Node`.
pub record NodeView : Type 0 where
  pub name : String
  pub url : String
  pub api_port : ℕ
  pub node_id : String
  pub binary_path : String
  pub logs_dir : String
  pub db_dir : String
  pub config_file : String
  pub plugin_dir : String
  pub paused : Bool
  pub flag : String → Result String

-- A chain of the P-Chain API, its IDs as text.
pub record Blockchain : Type 0 where
  pub id : String
  pub name : String
  pub vm_id : String
  pub subnet_id : String

pub record Backend : Type 1 where
  pub State : Type 0
  pub Handle : Type 0
  -- local.NewNetwork, local.NewNetworkFromSnapshot
  pub new_network : NetworkConfig → Options → Exec State Handle
  pub new_network_from_snapshot :
      String → Options → String → String → Dict Value → Exec State Handle
  -- local.NewDefaultConfigNNodes
  pub default_config : String → ℕ → Exec State NetworkConfig
  -- network.Network
  pub healthy : Handle → Exec State (Unit {0})
  pub stop : Handle → Exec State (Unit {0})
  pub add_node : Handle → NodeConfig → Exec State (Unit {0})
  pub remove_node : Handle → String → Exec State (Unit {0})
  pub pause_node : Handle → String → Exec State (Unit {0})
  pub resume_node : Handle → String → Exec State (Unit {0})
  pub restart_node : Handle → RestartOptions → String → Exec State (Unit {0})
  pub get_node : Handle → String → Exec State NodeView
  pub get_all_nodes : Handle → Exec State (Dict NodeView)
  pub create_blockchains : Handle → List BlockchainSpec → Exec State (List String)
  pub create_subnets : Handle → List SubnetSpec → Exec State (List String)
  pub save_snapshot : Handle → String → Exec State String
  pub remove_snapshot : Handle → String → Exec State (Unit {0})
  pub get_snapshot_names : Handle → Exec State (List String)
  -- node.AttachPeer (the peer's ID) and node.SendOutboundMessage
  pub attach_peer : NodeView → Exec State String
  pub send_outbound_message : NodeView → String → String → ℕ → Exec State Bool
  -- the P-Chain client of a node: chains, subnets, and the node IDs of a subnet's validators
  pub get_blockchains : NodeView → Exec State (List Blockchain)
  pub get_subnets : NodeView → Exec State (List String)
  pub get_current_validators : NodeView → String → Exec State (List String)
  pub platform_chain_id : String
  -- the Go library
  pub sort : List String → List String
  pub print_nat : ℕ → String
  pub join : String → String → String
  pub temp_dir : String
  pub pid : ℕ
  pub time_stamp : State → String
  pub mkdir_all : String → Exec State (Unit {0})
  pub stat : String → State → Stat
  pub read_file : String → State → Result String
  pub parse_json : String → Result (Dict Value)
  pub print_json : Value → Result String
  pub print_cluster : ClusterInfo → Result String
  pub parse_cluster : String → Result ClusterInfo
  -- ids.ToID of a name padded with zeros to 32 bytes, as text
  pub padded_id : String → String
  -- avalanchego/config
  pub http_port_key : String
  pub staking_port_key : String
  pub plugin_dir_key : String
  pub track_subnets_key : String
  -- logging.Factory.Make
  pub make_logger : String → Exec State (Unit {0})
