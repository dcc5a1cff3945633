-- ===== src/Local/Network/Restart.antt =====
-- `resumeNode` and `restartNode` of local/network.go. The config that a node hands out shares its
-- maps with the node, so what is written to them shows in the node that is still in the network.
pub mod Placement
use cnr_sandbox.Base.{String, Option, none, some, [], ◌∷◌, ◌==◌, if◌then◌else◌, pos, ◌++◌}
use cnr_sandbox.Base.Dict.{Dict, lookup, insert, set_all}
use cnr_sandbox.Base.Exec.{
  Result, ok, err, crash, Exec, pure, fail, panic, lift, get, modify, ◌>>=◌, ◌>>◌, node_not_found,
  not_paused,
}
use cnr_sandbox.Config.{Value, text, int, NodeConfig, RestartOptions}
use cnr_sandbox.World.{World}
use cnr_sandbox.Local.State.{LocalNode, System}
use cnr_sandbox.Local.Network.Add.{with_defaults, add_node}
use cnr_sandbox.Local.Network.Remove.{remove_node}

-- `for k, v := range src { m[k] = v }`, where `m` may be nil.
unfoldable pub assign_all {ℓ} : {V : Type ℓ} → Dict V → Option (Dict V) → Result (Option (Dict V))
unfolding set_all insert
assign_all [] m = ok m
assign_all (e ∷ src) none = crash "assignment to entry in nil map"
assign_all (e ∷ src) (some m) = ok (some (set_all (e ∷ src) m))

module _ (W : World) where
  -- The flags that keep a node where it is.
  unfoldable pub place_flags : LocalNode W → Dict Value
  place_flags node =
      (W.data_dir_key, text node.data_dir)
      ∷ (W.db_path_key, text node.db_dir)
      ∷ (W.logs_dir_key, text node.logs_dir)
      ∷ (W.http_port_key, int (pos node.api_port))
      ∷ (W.staking_port_key, int (pos node.p2p_port))
      ∷ []

  -- The node in the network sees the writes to the maps of `c`.
  unfoldable pub share_maps : String → LocalNode W → NodeConfig → Exec (System W) (Unit {0})
  unfolding insert
  share_maps name node c s =
      let config = record node.config {
        flags = c.flags;
        chain_config_files = c.chain_config_files;
        upgrade_config_files = c.upgrade_config_files;
        subnet_config_files = c.subnet_config_files;
      } in
      pure tt (record s {
        net = record s.net { nodes = insert name (record node { config = config }) s.net.nodes };
      })

  unfoldable pub resume_found : String → Option (LocalNode W) → Exec (System W) (Unit {0})
  unfolding share_maps place_flags assign_all with_defaults add_node
  resume_found name none = fail (node_not_found name)
  resume_found name (some node) =
      if node.paused
      then (do
        flags ← lift (assign_all (place_flags node) node.config.flags)
        let c = record node.config { flags = flags }
        s ← get
        share_maps name node (with_defaults W s.net c)
        add_node W c
        pure tt)
      else fail not_paused

  unfoldable pub resume_node : String → Exec (System W) (Unit {0})
  unfolding resume_found lookup
  resume_node name s = resume_found name (lookup name s.net.nodes) s

  abbrev optional_flag : String → String → Dict Value
  optional_flag key v = if v == "" then [] else (key, text v) ∷ []

  -- The flags that a restart writes, in the order in which a later one does not undo an earlier.
  unfoldable pub restart_flags : RestartOptions → LocalNode W → Dict Value
  unfolding place_flags
  restart_flags o node =
      place_flags node
      ++ (optional_flag W.track_subnets_key o.track_subnets
          ++ optional_flag W.plugin_dir_key o.plugin_dir)

  -- The node's config with the options of a restart, which are written to its maps one after the
  -- other; what is written before a nil map stays.
  unfoldable pub restart_config : RestartOptions → LocalNode W → Exec NodeConfig (Unit {0})
  unfolding restart_flags assign_all
  restart_config o node = do
    modify (λ c. record c {
      binary_path = if o.binary_path == "" then c.binary_path else o.binary_path;
    })
    c ← get
    flags ← lift (assign_all (restart_flags o node) c.flags)
    modify (λ d. record d { flags = flags })
    chains ← lift (assign_all o.chain_configs c.chain_config_files)
    modify (λ d. record d { chain_config_files = chains })
    upgrades ← lift (assign_all o.upgrade_configs c.upgrade_config_files)
    modify (λ d. record d { upgrade_config_files = upgrades })
    subnets ← lift (assign_all o.subnet_configs c.subnet_config_files)
    modify (λ d. record d { subnet_config_files = subnets })

  -- The node is stopped, unless it is paused, and started with its new config; after a panic the
  -- node has what was written.
  unfoldable pub restart_with :
      String → LocalNode W → Result (Unit {0}) → NodeConfig → Exec (System W) (Unit {0})
  unfolding share_maps with_defaults remove_node add_node
  restart_with name node (crash m) c = share_maps name node c >> panic m
  restart_with name node (err e) c = share_maps name node c >> fail e
  restart_with name node (ok a) c = do
    s ← get
    share_maps name node (with_defaults W s.net c)
    (if node.paused then pure tt else remove_node W name)
    add_node W c
    pure tt

  unfoldable pub restart_found :
      RestartOptions → String → Option (LocalNode W) → Exec (System W) (Unit {0})
  unfolding restart_config restart_with
  restart_found o name none = fail (node_not_found name)
  restart_found o name (some node) =
      let (written, c) = restart_config o node node.config in restart_with name node written c

  unfoldable pub restart_node : RestartOptions → String → Exec (System W) (Unit {0})
  unfolding restart_found lookup
  restart_node o name s = restart_found o name (lookup name s.net.nodes) s
