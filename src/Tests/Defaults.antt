-- ===== src/Tests/Defaults.antt =====
-- The default config in the small world, and what the server makes of it.
use cnr_sandbox.Base.{ℕ, none, [], ◌∷◌, ◌≡◌, refl, or_default, arith, List, length, All}
use cnr_sandbox.Base.Dict.{Dict, lookup}
use cnr_sandbox.Base.Exec.{ok}
use cnr_sandbox.Config.{Value, float, NodeConfig, NetworkConfig, HasNilFiles}
use cnr_sandbox.Local.Defaults.{EmbeddedNode, default_network_config, new_default_config_n_nodes}
use cnr_sandbox.Local.Defaults.Bare.{new_default_config_n_nodes_lem}
use cnr_sandbox.Server.State.{Options}
use cnr_sandbox.Server.Backend.{Backend}
use cnr_sandbox.Server.Config.{configure_nodes, create_config, parse_optional}
use cnr_sandbox.Server.Config.Crash.{
  HasNoFiles, node_name, AreConfigured, GivesNilFiles, configure_nodes_lem, create_config-ok,
}
use cnr_sandbox.Tests.Surroundings.{world, backend, node_config}
use cnr_sandbox.Tests.Server.{options}

abbrev embedded : EmbeddedNode
embedded = record {
  flags = ("http-port", float 9650) ∷ ("staking-port", float 9651) ∷ [];
  staking_key = "key";
  staking_cert = "cert";
  signing_key = "signer";
}

abbrev defaults : NetworkConfig
defaults = default_network_config "genesis" [] "{}" (embedded ∷ [])

grown_config : NetworkConfig
unfolding new_default_config_n_nodes default_network_config
grown_config = elim (new_default_config_n_nodes world defaults "bin" 2 0).0 [
  | ok cfg ↦ cfg
  | x ↦ defaults
]

grows : new_default_config_n_nodes world defaults "bin" 2 0 ≡ (ok grown_config, 1)
unfolding grown_config new_default_config_n_nodes default_network_config
grows = refl

new_default_config_n_nodes_lem_example :
    (length grown_config.node_configs ≡ 2)
    × (grown_config.binary_path ≡ "bin")
    × All HasNilFiles grown_config.node_configs
new_default_config_n_nodes_lem_example =
    new_default_config_n_nodes_lem world "genesis" [] "{}" (embedded ∷ []) "bin" 2 0 1 grown_config
      grows

-- The network of the server with the default config of the local one.
abbrev local_backend : Backend
local_backend = record backend {
  default_config = λ path n. new_default_config_n_nodes world defaults path n;
}

gives_nil_files : GivesNilFiles local_backend
gives_nil_files path n s t cfg h =
    let (count, _, bare) =
      new_default_config_n_nodes_lem world "genesis" [] "{}" (embedded ∷ []) path n s t cfg h in
    (count, bare)

abbrev no_files : Options
no_files = record options { chain_configs = []; track_subnets = "subnet"; num_nodes = 2 }

abbrev bare : NodeConfig
bare = record node_config {
  chain_config_files = none;
  upgrade_config_files = none;
  subnet_config_files = none;
}

no_custom :
    (i : ℕ)
    → (custom : Dict Value) × (parse_optional local_backend
          (or_default "" (lookup (node_name local_backend i) no_files.custom_node_configs))
        ≡ ok custom)
unfolding parse_optional lookup
no_custom i = ([], refl)

configure_nodes_lem_example :
    (ds : List NodeConfig) × (configure_nodes local_backend no_files "bin" 0 (bare ∷ bare ∷ [])
      ≡ ok ds)
    × AreConfigured local_backend no_files "bin" 0 (bare ∷ bare ∷ []) ds
configure_nodes_lem_example =
    configure_nodes_lem local_backend no_files "bin" 0 (bare ∷ bare ∷ []) (refl, refl, refl)
      ((refl, refl, refl), ((refl, refl, refl), tt)) no_custom

created_config : NetworkConfig
unfolding create_config new_default_config_n_nodes default_network_config
created_config = elim (create_config local_backend no_files "bin" "" 0).0 [
  | ok cfg ↦ cfg
  | x ↦ defaults
]

creates : create_config local_backend no_files "bin" "" 0 ≡ (ok created_config, 1)
unfolding created_config create_config new_default_config_n_nodes default_network_config
creates = refl

create_config-ok_example : HasNoFiles local_backend no_files
create_config-ok_example =
    create_config-ok local_backend no_files "bin" "" 0 1 created_config gives_nil_files
      (omega arith) creates
