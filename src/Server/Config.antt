-- ===== src/Server/Config.antt =====
-- `createConfig` of server/network.go.
pub mod Crash
use cnr_sandbox.Base.{
  ℕ, suc, ◌+◌, String, ◌<>◌, Option, some, List, [], ◌∷◌, ◌==◌, if◌then◌else◌, or_default,
}
use cnr_sandbox.Base.Dict.{Dict, lookup, insert, erase, set_all}
use cnr_sandbox.Base.Exec.{Result, ok, Exec, pure, lift, ◌>>=◌, bind_result}
use cnr_sandbox.Config.{Value, text, NodeConfig, NetworkConfig}
use cnr_sandbox.Local.State.{entries}
use cnr_sandbox.Local.Network.Restart.{assign_all}
use cnr_sandbox.Server.State.{Options}
use cnr_sandbox.Server.Backend.{Backend}

module _ (B : Backend) where
  unfoldable pub parse_optional : String → Result (Dict Value)
  parse_optional body = if body == "" then ok [] else B.parse_json body

  -- The flags of one node before its own custom config: the ports may be dropped, and the tracked
  -- subnets are set.
  unfoldable pub base_flags : Options → Option (Dict Value) → Dict Value
  unfolding insert erase
  base_flags o flags =
      let given = entries flags in
      let ported =
        if o.dynamic_ports then erase B.staking_port_key (erase B.http_port_key given) else given in
      if o.track_subnets == ""
      then ported
      else insert B.track_subnets_key (text o.track_subnets) ported

  -- One round of the loop over the node configs.
  unfoldable pub configure_node : Options → String → ℕ → NodeConfig → Result NodeConfig
  unfolding base_flags parse_optional assign_all set_all lookup
  configure_node o exec_path index c =
      let name = "node" <> B.print_nat (index + 1) in
      bind_result (assign_all o.chain_configs c.chain_config_files) λ chains.
        bind_result (assign_all o.upgrade_configs c.upgrade_config_files) λ upgrades.
          bind_result (assign_all o.subnet_configs c.subnet_config_files) λ subnets.
            bind_result (parse_optional (or_default "" (lookup name o.custom_node_configs)))
              λ custom. ok (record c {
                name = name;
                chain_config_files = chains;
                upgrade_config_files = upgrades;
                subnet_config_files = subnets;
                flags = some (set_all custom (base_flags o c.flags));
                binary_path = exec_path;
                redirect_stdout = o.redirect_nodes_output;
                redirect_stderr = o.redirect_nodes_output;
              })

  unfoldable pub configure_nodes : Options → String → ℕ → List NodeConfig → Result (List NodeConfig)
  unfolding configure_node
  configure_nodes o exec_path index [] = ok []
  configure_nodes o exec_path index (c ∷ cs) =
      bind_result (configure_node o exec_path index c)
        λ c'. bind_result (configure_nodes o exec_path (suc index) cs) λ cs'. ok (c' ∷ cs')

  unfoldable pub plugin_flag : String → Dict Value
  plugin_flag plugin_dir = if plugin_dir == "" then [] else (B.plugin_dir_key, text plugin_dir) ∷ []

  -- The config of a network from the options of a start request.
  unfoldable pub create_config : Options → String → String → Exec B.State NetworkConfig
  unfolding configure_nodes plugin_flag parse_optional assign_all
  create_config o exec_path plugin_dir = do
    cfg ← B.default_config o.exec_path o.num_nodes
    global ← lift (parse_optional o.global_node_config)
    flags ← lift (assign_all global cfg.flags)
    flags' ← lift (assign_all (plugin_flag plugin_dir) flags)
    nodes ← lift (configure_nodes o exec_path 0 cfg.node_configs)
    pure (record cfg { flags = flags'; node_configs = nodes })
