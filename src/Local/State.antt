-- ===== src/Local/State.antt =====
-- The state of local/network.go and local/node.go: `localNetwork`, `localNode`.
-- Locks and loggers are left out; `stop_called` is whether `onStopCh` is closed.
use cnr_sandbox.Base.{ℕ, String, Bool, Option, or_default, [], ◌==◌, ◌||◌, if◌then◌else◌}
use cnr_sandbox.Base.Dict.{Dict}
use cnr_sandbox.Base.Exec.{Exec}
use cnr_sandbox.Config.{Value, NodeConfig}
use cnr_sandbox.World.{World}

-- The entries of a Go map that may be nil.
abbrev pub entries {ℓ} : {V : Type ℓ} → Option (Dict V) → Dict V
entries = or_default []

module _ (W : World) where
  pub record LocalNode : Type 0 where
    pub name : String
    pub node_id : String
    pub network_id : ℕ
    pub process : W.Process
    pub api_port : ℕ
    pub p2p_port : ℕ
    pub data_dir : String
    pub db_dir : String
    pub logs_dir : String
    pub plugin_dir : String
    pub config : NodeConfig
    pub http_host : String
    pub paused : Bool

  pub record LocalNetwork : Type 0 where
    pub network_id : ℕ
    pub genesis : String
    pub stop_called : Bool
    pub next_node_suffix : ℕ
    pub nodes : Dict LocalNode
    pub bootstraps : W.Beacons
    pub root_dir : String
    pub snapshots_dir : String
    pub flags : Option (Dict Value)
    pub binary_path : String
    pub chain_config_files : Option (Dict String)
    pub upgrade_config_files : Option (Dict String)
    pub subnet_config_files : Option (Dict String)
    pub reassign_ports_if_used : Bool

  -- A network and everything outside the program.
  pub record System : Type 0 where
    pub net : LocalNetwork
    pub world : W.State

  -- A call that only the outside sees.
  abbrev pub outside : {A : Type 0} → Exec W.State A → Exec System A
  outside m s = let (r, w) = m s.world in (r, record s { world = w })

  unfoldable pub get_url : LocalNode → String
  get_url node =
      if node.http_host == "0.0.0.0" || node.http_host == "." then "0.0.0.0" else "127.0.0.1"
