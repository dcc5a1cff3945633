-- ===== src/Local/Network/Restart/Placement.antt =====
-- The config that `restartNode` of local/network.go starts a node with.
use cnr_sandbox.Base.{
  arith, String, some, ◌≡◌, refl, ◌==◌, if◌then◌else◌, first_some, [], ◌∷◌, Option, not, ◌&&◌, pos,
  ◌∙◌,
}
use cnr_sandbox.Base.Dict.{Dict, lookup, lookup-set_all, set_all}
use cnr_sandbox.Base.Exec.{ok}
use cnr_sandbox.Config.{Value, text, int, NodeConfig, RestartOptions}
use cnr_sandbox.World.{World}
use cnr_sandbox.Local.State.{LocalNode, entries}
use cnr_sandbox.Local.Network.Restart.{assign_all, place_flags, restart_flags, restart_config}

assign_all-some :
    {V : Type 0} (src dst : Dict V) → assign_all src (some dst) ≡ ok (some (set_all src dst))
unfolding assign_all set_all
assign_all-some [] dst = refl
assign_all-some (e ∷ src) dst = refl

module _ (W : World) where
  -- The value of a flag after a restart: the place of the node, the options that are given, or the
  -- flag as it was.
  abbrev pub flag_after : RestartOptions → LocalNode W → Dict Value → String → Option Value
  flag_after o node flags k =
      if W.data_dir_key == k
      then some (text node.data_dir)
      else if W.db_path_key == k
      then some (text node.db_dir)
      else if W.logs_dir_key == k
      then some (text node.logs_dir)
      else if W.http_port_key == k
      then some (int (pos node.api_port))
      else if W.staking_port_key == k
      then some (int (pos node.p2p_port))
      else if not (o.track_subnets == "") && (W.track_subnets_key == k)
      then some (text o.track_subnets)
      else if not (o.plugin_dir == "") && (W.plugin_dir_key == k)
      then some (text o.plugin_dir)
      else lookup k flags

  lookup-restart_flags :
      (o : RestartOptions) (node : LocalNode W) (flags : Dict Value) (k : String)
      → first_some (lookup k (restart_flags W o node)) (lookup k flags) ≡ flag_after o node flags k
  unfolding restart_flags place_flags lookup
  lookup-restart_flags o node flags k = ground arith

  -- A node whose config has its maps is restarted without a panic: it gets its data, database and logs directories and its two ports as flags, whatever its flags were, the tracked subnets and the plugin directory of the options where they are given, and keeps all other flags; every chain, upgrade and subnet config is the one of the options or else its own, the name stays, and the binary changes only when one is given.
  pub restart_config_lem :
      (o : RestartOptions) (node : LocalNode W) (flags : Dict Value)
      (chains upgrades subnets : Dict String)
      → node.config.flags ≡ some flags
      → node.config.chain_config_files ≡ some chains
      → node.config.upgrade_config_files ≡ some upgrades
      → node.config.subnet_config_files ≡ some subnets
      → (c : NodeConfig) × (restart_config W o node node.config ≡ (ok tt, c))
        × (c.name ≡ node.config.name)
        × (c.binary_path ≡ (if o.binary_path == "" then node.config.binary_path else o.binary_path))
        × ((k : String)
            → (lookup k (entries c.flags) ≡ flag_after o node flags k)
              × (lookup k (entries c.chain_config_files)
                  ≡ first_some (lookup k o.chain_configs) (lookup k chains))
              × (lookup k (entries c.upgrade_config_files)
                  ≡ first_some (lookup k o.upgrade_configs) (lookup k upgrades))
              × (lookup k (entries c.subnet_config_files)
                  ≡ first_some (lookup k o.subnet_configs) (lookup k subnets)))
  unfolding restart_config
  restart_config_lem o node flags chains upgrades subnets e f g h =
      let added = restart_flags W o node in
      let made : NodeConfig = record node.config {
        binary_path = if o.binary_path == "" then node.config.binary_path else o.binary_path;
        flags = some (set_all added flags);
        chain_config_files = some (set_all o.chain_configs chains);
        upgrade_config_files = some (set_all o.upgrade_configs upgrades);
        subnet_config_files = some (set_all o.subnet_configs subnets);
      } in
      let b = assign_all-some o.chain_configs chains in
      let c = assign_all-some o.upgrade_configs upgrades in
      let d = assign_all-some o.subnet_configs subnets in
      (
        made,
        rw (e, f, b, g, c, h, d) refl,
        refl,
        refl,
        λ k. (
          lookup-set_all k added flags ∙ lookup-restart_flags o node flags k,
          lookup-set_all k o.chain_configs chains,
          lookup-set_all k o.upgrade_configs upgrades,
          lookup-set_all k o.subnet_configs subnets,
        ),
      )
