-- ===== src/Config.antt =====
-- network/node/node.go and network/config.go: what a user writes down about a network.
-- A Go map that may be nil is an `Option` of a dictionary.
pub mod Specs
pub mod Genesis
pub mod Validate
use Prim.Native.Nat.{ℕ}
use Prim.Native.String.{String}
use mathlib.Core.Bool.{Bool}
use mathlib.Core.List.{List}
use mathlib.Core.Option.{Option}
use cnr_sandbox.Base.{ℤ, none, ◌≡◌}
use cnr_sandbox.Base.Dict.{Dict}

-- The dynamic values of `interface{}` that the code makes or that `encoding/json` makes. A float64
-- is its bit pattern; arrays and objects are only passed on, so they are their text.
pub data Value : Type 0 where
  text : String → Value
  int : ℤ → Value
  uint16 : ℕ → Value
  float : ℕ → Value
  bool : Bool → Value
  null : Value
  array : String → Value
  object : String → Value

-- What `%T` prints.
abbrev pub type_name : Value → String
type_name (text s) = "string"
type_name (int z) = "int"
type_name (uint16 n) = "uint16"
type_name (float f) = "float64"
type_name (bool b) = "bool"
type_name null = "<nil>"
type_name (array s) = "[]interface {}"
type_name (object s) = "map[string]interface {}"

pub record NodeConfig : Type 0 where
  pub name : String
  pub is_beacon : Bool
  pub staking_key : String
  pub staking_cert : String
  pub staking_signing_key : String
  pub config_file : String
  pub chain_config_files : Option (Dict String)
  pub upgrade_config_files : Option (Dict String)
  pub subnet_config_files : Option (Dict String)
  pub flags : Option (Dict Value)
  pub binary_path : String
  pub redirect_stdout : Bool
  pub redirect_stderr : Bool

-- The three maps of files are nil.
abbrev pub HasNilFiles : NodeConfig → Type 0
HasNilFiles c =
    (c.chain_config_files ≡ none) × (c.upgrade_config_files ≡ none) × (c.subnet_config_files ≡ none)

pub record NetworkConfig : Type 0 where
  pub genesis : String
  pub node_configs : List NodeConfig
  pub flags : Option (Dict Value)
  pub binary_path : String
  pub chain_config_files : Option (Dict String)
  pub upgrade_config_files : Option (Dict String)
  pub subnet_config_files : Option (Dict String)

-- The optional arguments of `RestartNode`.
pub record RestartOptions : Type 0 where
  pub binary_path : String
  pub plugin_dir : String
  pub track_subnets : String
  pub chain_configs : Dict String
  pub upgrade_configs : Dict String
  pub subnet_configs : Dict String
