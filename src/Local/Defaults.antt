-- ===== src/Local/Defaults.antt =====
-- `NewDefaultConfigNNodes` of local/network.go. What the embedded files hold is given.
pub mod Counting
pub mod Bare
use cnr_sandbox.Base.{
  ℕ, zero, suc, ◌+◌, ◌*◌, ◌-◌, String, Option, none, some, List, [], ◌∷◌, ◌++◌, ltb, length,
  if◌then◌else◌, ℤ, pos, negsuc, true, false,
}
use cnr_sandbox.Base.Dict.{Dict, lookup}
use cnr_sandbox.Base.Exec.{
  Result, ok, err, crash, Exec, pure, lift, ◌>>=◌, wrap_exec, message, bind_result,
}
use cnr_sandbox.Config.{Value, int, float, NodeConfig, NetworkConfig}
use cnr_sandbox.World.{World}
use cnr_sandbox.Local.State.{entries}

-- What is embedded for a default node: its flags, and its keys and certificate as text.
pub record EmbeddedNode : Type 0 where
  pub flags : Dict Value
  pub staking_key : String
  pub staking_cert : String
  pub signing_key : String

-- The config of a default node. The fields that are not set have their zero values.
unfoldable embedded_config : EmbeddedNode → NodeConfig
embedded_config n = record {
  name = "";
  is_beacon = true;
  staking_key = n.staking_key;
  staking_cert = n.staking_cert;
  staking_signing_key = n.signing_key;
  config_file = "";
  chain_config_files = none;
  upgrade_config_files = none;
  subnet_config_files = none;
  flags = some n.flags;
  binary_path = "";
  redirect_stdout = false;
  redirect_stderr = false;
}

unfoldable pub embedded_configs : List EmbeddedNode → List NodeConfig
unfolding embedded_config
embedded_configs [] = []
embedded_configs (n ∷ ns) = embedded_config n ∷ embedded_configs ns

-- `defaultNetworkConfig`, from the genesis, the flags, the config of the C-Chain and the nodes.
unfoldable pub default_network_config :
    String → Dict Value → String → List EmbeddedNode → NetworkConfig
unfolding embedded_configs
default_network_config genesis flags c_chain nodes = record {
  genesis = genesis;
  node_configs = embedded_configs nodes;
  flags = some flags;
  binary_path = "";
  chain_config_files = some (("C", c_chain) ∷ []);
  upgrade_config_files = some [];
  subnet_config_files = some [];
}

-- `z + n` on ints, which do not overflow here.
unfoldable add_nat : ℤ → ℕ → ℤ
add_nat (pos m) n = pos (m + n)
add_nat (negsuc m) n = if ltb m n then pos (n - suc m) else negsuc (m - n)

-- The last node config, of which copies are made; the index is out of range without any.
unfoldable pub last_config : List NodeConfig → Result NodeConfig
last_config [] = crash "index out of range"
last_config (c ∷ []) = ok c
last_config (c ∷ d ∷ cs) = last_config (d ∷ cs)

-- `configs[:n]`
unfoldable pub first_configs : ℕ → List NodeConfig → List NodeConfig
first_configs zero cs = []
first_configs (suc n) [] = []
first_configs (suc n) (c ∷ cs) = c ∷ first_configs n cs

module _ (W : World) where
  unfoldable pub ref_port : String → Option Value → Result ℤ
  ref_port what none = err (message ("could not get last standard port from config"))
  ref_port what (some (float f)) = ok (W.float_to_int f)
  ref_port what (some v) = err (message "expected float64 for last standard api port")

  unfoldable added_config : NodeConfig → ℤ → ℤ → ℕ → String × String → NodeConfig
  unfolding add_nat
  added_config ref api_port staking_port i pair = record ref {
    staking_cert = pair.0;
    staking_key = pair.1;
    flags = some (
        (W.http_port_key, int (add_nat api_port ((i + 1) * 2)))
        ∷ (W.staking_port_key, int (add_nat staking_port ((i + 1) * 2)))
        ∷ []);
  }

  unfoldable pub added_configs : NodeConfig → ℤ → ℤ → ℕ → ℕ → Exec W.State (List NodeConfig)
  unfolding added_config
  added_configs ref api_port staking_port i zero = pure []
  added_configs ref api_port staking_port i (suc n) = do
    pair ← wrap_exec "couldn't generate staking Cert/Key" W.new_cert_and_key
    rest ← added_configs ref api_port staking_port (suc i) n
    pure (added_config ref api_port staking_port i pair ∷ rest)

  unfoldable pub grown : NetworkConfig → ℕ → Exec W.State (List NodeConfig)
  unfolding last_config ref_port added_configs lookup
  grown cfg to_add = do
    ref ← lift (last_config cfg.node_configs)
    api_port ← lift (ref_port "api" (lookup W.http_port_key (entries ref.flags)))
    staking_port ← lift (ref_port "staking" (lookup W.staking_port_key (entries ref.flags)))
    more ← added_configs ref api_port staking_port 0 to_add
    pure (cfg.node_configs ++ more)

  unfoldable pub sized_configs : NetworkConfig → ℕ → Exec W.State (List NodeConfig)
  unfolding grown first_configs
  sized_configs cfg n =
      if ltb (length cfg.node_configs) n
      then grown cfg (n - length cfg.node_configs)
      else pure (first_configs n cfg.node_configs)

  -- `default` is what `NewDefaultConfig` gives; the number of nodes is a uint32.
  unfoldable pub new_default_config_n_nodes :
      NetworkConfig → String → ℕ → Exec W.State NetworkConfig
  unfolding sized_configs
  new_default_config_n_nodes default binary_path n = do
    let cfg : NetworkConfig = record default { binary_path = binary_path }
    configs ← sized_configs cfg n
    pure (record cfg { node_configs = configs })
