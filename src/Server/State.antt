-- ===== src/Server/State.antt =====
-- The data of server/server.go and server/network.go, and the messages of rpcpb that they use.
use cnr_sandbox.Base.{ℕ, String, Bool, Option, List}
use cnr_sandbox.Base.Dict.{Dict}

pub record NodeInfo : Type 0 where
  pub name : String
  pub uri : String
  pub id : String
  pub exec_path : String
  pub log_dir : String
  pub db_dir : String
  pub config : String
  pub plugin_dir : String
  pub whitelisted_subnets : String
  pub paused : Bool

pub record CustomChainInfo : Type 0 where
  pub chain_name : String
  pub vm_id : String
  pub subnet_id : String
  pub chain_id : String

pub record ClusterInfo : Type 0 where
  pub pid : ℕ
  pub root_data_dir : String
  pub healthy : Bool
  pub node_names : List String
  pub node_infos : Dict NodeInfo
  pub attached_peer_infos : Dict (List String)
  pub custom_chains_healthy : Bool
  pub custom_chains : Dict CustomChainInfo
  pub subnets : List String
  pub subnet_participants : Dict (List String)

pub record Options : Type 0 where
  pub exec_path : String
  pub root_data_dir : String
  pub num_nodes : ℕ
  pub track_subnets : String
  pub redirect_nodes_output : Bool
  pub global_node_config : String
  pub plugin_dir : String
  pub custom_node_configs : Dict String
  pub chain_configs : Dict String
  pub upgrade_configs : Dict String
  pub subnet_configs : Dict String
  pub snapshots_dir : String
  pub reassign_ports_if_used : Bool
  pub dynamic_ports : Bool

-- The server's own view of a network (`localNetwork` of server/network.go). `nw` is nil until a
-- network is created; the custom chains are under the text of their IDs.
pub record ServerNetwork (Handle : Type 0) : Type 0 where
  pub exec_path : String
  pub plugin_dir : String
  pub nw : Option Handle
  pub node_infos : Dict NodeInfo
  pub options : Options
  pub custom_chains : Dict CustomChainInfo
  pub stop_called : Bool
  pub subnets : List String
  pub subnet_participants : Dict (List String)

-- What a blockchain request asks for (rpcpb.BlockchainSpec, rpcpb.SubnetSpec).
pub record SubnetRequest : Type 0 where
  pub participants : List String
  pub subnet_config : String

pub record BlockchainRequest : Type 0 where
  pub vm_name : String
  pub genesis : String
  pub subnet_id : Option String
  pub subnet_spec : Option SubnetRequest
  pub chain_config : String
  pub network_upgrade : String
  pub blockchain_alias : String
  pub per_node_chain_config : String
