-- ===== src/World.antt =====
-- What the program calls and does not implement: the Go library, avalanchego, the operating system
-- and the node binary. `State` is everything outside the program; an operation on it is an oracle.
use Prim.Native.Nat.{ℕ}
use Prim.Native.String.{String}
use mathlib.Core.Bool.{Bool}
use mathlib.Core.List.{List}
use mathlib.Core.Option.{Option}
use cnr_sandbox.Base.{ℤ}
use cnr_sandbox.Base.Dict.{Dict}
use cnr_sandbox.Base.Exec.{Error, Result, Exec}
use cnr_sandbox.Config.{Value, NodeConfig, NetworkConfig}

-- What `os.Stat` finds: a path, `os.ErrNotExist`, or another error.
pub data Stat : Type 0 where
  present absent : Stat
  unreadable : Error → Stat

-- What `os.Mkdir` comes back with; `exists` is the error that `os.IsExist` accepts.
pub data Mkdir : Type 0 where
  made exists : Mkdir
  refused : Error → Mkdir

pub record World : Type 1 where
  pub State : Type 0
  -- encoding/json and encoding/base64
  pub parse_json : String → Result (Dict Value)
  pub print_json : Dict Value → Result String
  pub decode_base64 : String → Result String
  -- conversions of a float64, given by its bits
  pub float_to_int : ℕ → ℤ
  pub float_to_uint16 : ℕ → ℕ
  pub float_to_uint32 : ℕ → ℕ
  -- fmt: `%d`, `%v`
  pub print_nat : ℕ → String
  pub print_value : Value → String
  -- path/filepath and strings
  pub join : String → String → String
  pub dir : String → String
  pub base : String → String
  pub trim_prefix : String → String → String
  pub trim_suffix : String → String → String
  -- semver.Compare(a, b) < 0, and the submatch of `camino-node:\s+v([\d.]+)`
  pub version_lt : String → String → Bool
  pub find_version : String → Option String
  -- the flag names of avalanchego/config, and its local network ID
  pub network_name_key : String
  pub data_dir_key : String
  pub db_path_key : String
  pub logs_dir_key : String
  pub http_host_key : String
  pub http_port_key : String
  pub staking_port_key : String
  pub plugin_dir_key : String
  pub track_subnets_key : String
  pub bootstrap_ips_key : String
  pub bootstrap_ids_key : String
  pub staking_tls_key_path_key : String
  pub staking_cert_path_key : String
  pub staking_signer_key_path_key : String
  pub genesis_config_file_key : String
  pub config_file_key : String
  pub chain_config_dir_key : String
  pub subnet_config_dir_key : String
  pub local_id : ℕ
  pub network_name : ℕ → String
  -- staking.NewCertAndKeyBytes (certificate, key), bls.NewSecretKey in base64, and the node ID
  pub new_cert_and_key : Exec State (String × String)
  pub new_signing_key : Exec State String
  pub node_id_of : String → String → Result String
  -- os
  pub stat : String → State → Stat
  pub mkdir : String → State → Mkdir × State
  pub mkdir_all : String → Exec State (Unit {0})
  pub create : String → Exec State (Unit {0})
  pub write : String → String → Exec State (Unit {0})
  pub read_file : String → State → Result String
  pub remove_all : String → Exec State (Unit {0})
  pub copy_dir : String → String → Exec State (Unit {0})
  pub glob : String → State → Result (List String)
  -- rand.Intn, net.Listen, and how often a loop under a fresh deadline finds it not yet passed
  pub intn : ℕ → State → ℕ × State
  pub listen : ℕ → State → Bool × State
  pub polls : State → ℕ
  -- the beacon set of avalanchego
  pub Beacons : Type 0
  pub no_beacons : Beacons
  pub add_beacon : String → ℕ → Beacons → Result Beacons
  pub remove_beacon : String → Beacons → Beacons
  pub ips_arg : Beacons → String
  pub ids_arg : Beacons → String
  -- NodeProcessCreator and NodeProcess, which the network is given, and the API client of a port
  pub Process : Type 0
  pub node_version : NodeConfig → Exec State String
  pub new_process : NodeConfig → List String → Exec State Process
  pub stop_process : Process → State → ℤ × State
  pub close_client : ℕ → State → State
  -- wrappers.Errs: the error that a run of `Add` leaves
  pub joined : List Error → Option Error
  -- network.json of a snapshot
  pub parse_network_config : String → Result NetworkConfig
  pub print_network_config : NetworkConfig → Result String
