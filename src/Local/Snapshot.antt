-- ===== src/Local/Snapshot.antt =====
-- local/snapshot.go and utils/json.go: a network on disk.
pub mod Contents
pub mod Stopping
use cnr_sandbox.Base.{
  String, ◌<>◌, Bool, true, Option, none, some, List, [], ◌∷◌, map, ◌==◌, if◌then◌else◌,
}
use cnr_sandbox.Base.Dict.{Dict, lookup, insert, erase, set_all, values}
use cnr_sandbox.Base.Exec.{
  Result, ok, err, crash, Exec, pure, fail, lift, get, modify, ◌>>=◌, ◌>>◌, bind_result, wrapping,
  wrap_exec, for_each, wrap, message, wrong_flag_type, err_stopped, err_snapshot_not_found,
}
use cnr_sandbox.Config.{Value, text, uint16, type_name, NodeConfig, NetworkConfig}
use cnr_sandbox.World.{World, Stat}
use cnr_sandbox.Local.State.{LocalNode, LocalNetwork, System, outside, entries}
use cnr_sandbox.Local.Files.{create_file_and_write}
use cnr_sandbox.Local.Network.Restart.{assign_all}
use cnr_sandbox.Local.Network.Remove.{stop}
use cnr_sandbox.Local.Network.Load.{load_config}

abbrev pub whitelisted_subnets_key : String
whitelisted_subnets_key = "whitelisted-subnets"

abbrev pub build_dir_key : String
build_dir_key = "build-dir"

-- One deprecated flag: the value under its old name moves to its new name, unless it is empty.
unfoldable pub move_flag :
    String → String → (String → String) → Option Value → Dict Value → Result (Dict Value)
unfolding insert erase
move_flag old_key new_key change none flags = ok flags
move_flag old_key new_key change (some (text v)) flags =
    ok (erase old_key (if v == "" then flags else insert new_key (text (change v)) flags))
move_flag old_key new_key change (some v) flags =
    err (wrong_flag_type old_key "string" (type_name v))

module _ (W : World) where
  unfoldable pub fix_deprecated_avago_flags : Dict Value → Result (Dict Value)
  unfolding move_flag lookup
  fix_deprecated_avago_flags flags =
      bind_result
        (move_flag whitelisted_subnets_key W.track_subnets_key (λ v. v)
          (lookup whitelisted_subnets_key flags) flags)
        λ tracked.
          move_flag build_dir_key W.plugin_dir_key (λ v. W.join v "plugins")
            (lookup build_dir_key tracked) tracked

  unfoldable set_json_key : String → String → String → Result String
  unfolding insert erase
  set_json_key body k v =
      bind_result (W.parse_json body)
        λ entries. W.print_json (if v == "" then erase k entries else insert k (text v) entries)

  unfoldable pub snapshot_dir : LocalNetwork W → String → String
  snapshot_dir ln name = W.join ln.snapshots_dir ("anr-snapshot-" <> name)

  -- The ports of a node, which a snapshot keeps.
  unfoldable port_flags : LocalNode W → Dict Value
  port_flags node =
      (W.staking_port_key, uint16 node.p2p_port) ∷ (W.http_port_key, uint16 node.api_port) ∷ []

  -- `delete(flags, config.LogsDirKey)`, which does nothing on nil.
  unfoldable network_flags : Option (Dict Value) → Option (Dict Value)
  unfolding erase
  network_flags none = none
  network_flags (some flags) = some (erase W.logs_dir_key flags)

  -- The loop over the ports.
  unfoldable with_ports : List (LocalNode W) → Result (List NodeConfig)
  unfolding port_flags assign_all
  with_ports [] = ok []
  with_ports (node ∷ nodes) =
      bind_result (assign_all (port_flags node) node.config.flags)
        λ flags. bind_result (with_ports nodes) λ cs. ok (record node.config { flags = flags } ∷ cs)

  unfoldable saved_config : NodeConfig → Result NodeConfig
  unfolding set_json_key network_flags
  saved_config c =
      bind_result
        (if c.config_file == "" then ok "" else set_json_key c.config_file W.logs_dir_key "")
        λ file. ok (record c { config_file = file; flags = network_flags c.flags })

  unfoldable saved_configs : List NodeConfig → Result (List NodeConfig)
  unfolding saved_config
  saved_configs [] = ok []
  saved_configs (c ∷ cs) =
      bind_result (saved_config c) λ d. bind_result (saved_configs cs) λ ds. ok (d ∷ ds)

  unfoldable find_dir : String → Option (LocalNode W) → Result String
  find_dir name none = err (message ("failure obtaining db path for node " <> name))
  find_dir name (some node) = ok node.db_dir

  unfoldable save_db : LocalNetwork W → String → NodeConfig → Exec (System W) (Unit {0})
  unfolding find_dir lookup
  save_db ln db_dir c = do
    let network = W.network_name ln.network_id
    source ← lift (find_dir c.name (lookup c.name ln.nodes))
    outside W (
        wrap_exec ("failure saving node " <> c.name)
          (W.copy_dir (W.join source network) (W.join (W.join db_dir c.name) network)))

  unfoldable saved_network : LocalNetwork W → List NodeConfig → NetworkConfig
  unfolding network_flags
  saved_network ln configs = record {
    genesis = ln.genesis;
    node_configs = configs;
    flags = network_flags ln.flags;
    binary_path = ln.binary_path;
    chain_config_files = ln.chain_config_files;
    upgrade_config_files = ln.upgrade_config_files;
    subnet_config_files = ln.subnet_config_files;
  }

  unfoldable pub path_free : String → Stat → Result (Unit {0})
  path_free name Stat.present = err (message ("snapshot already exists " <> name))
  path_free name Stat.absent = ok tt
  path_free name (Stat.unreadable e) = ok tt

  -- The databases of the nodes and the network's config, once the network is stopped.
  unfoldable pub write_snapshot : String → LocalNetwork W → List NodeConfig → Exec (System W) String
  unfolding saved_network save_db for_each create_file_and_write
  write_snapshot dir ln configs = do
    outside W (W.mkdir_all (W.join dir "db"))
    for_each configs (save_db ln (W.join dir "db"))
    body ← lift (W.print_network_config (saved_network ln configs))
    outside W (create_file_and_write W (W.join dir "network.json") body)
    pure dir

  -- The configs of the nodes as the snapshot keeps them.
  unfoldable pub snapshot_configs : List (LocalNode W) → Result (List NodeConfig)
  unfolding with_ports saved_configs
  snapshot_configs nodes = bind_result (with_ports nodes) saved_configs

  -- `SaveSnapshot`: the network is stopped once everything about it is known.
  unfoldable pub save_snapshot : String → Exec (System W) String
  unfolding snapshot_dir snapshot_configs path_free stop write_snapshot
  save_snapshot name s =
      if s.net.stop_called
      then fail err_stopped s
      else if name == ""
      then fail (message "invalid snapshotName") s
      else (do
        lift (path_free name (W.stat (snapshot_dir s.net name) s.world))
        configs ← lift (snapshot_configs (values s.net.nodes))
        stop W
        write_snapshot (snapshot_dir s.net name) s.net configs)
          s

  unfoldable snapshot_found : Stat → Result (Unit {0})
  snapshot_found Stat.present = ok tt
  snapshot_found Stat.absent = err err_snapshot_not_found
  snapshot_found (Stat.unreadable e) = err (wrap "failure accessing snapshot" e)

  -- A nil map has no deprecated flag, so it stays nil.
  unfoldable fix_flags : Option (Dict Value) → Result (Option (Dict Value))
  unfolding fix_deprecated_avago_flags
  fix_flags none = ok none
  fix_flags (some given) = bind_result (fix_deprecated_avago_flags given) λ fixed. ok (some fixed)

  unfoldable fix_node : NodeConfig → Result NodeConfig
  unfolding fix_flags
  fix_node c = bind_result (fix_flags c.flags) λ flags. ok (record c { flags = flags })

  unfoldable change_all :
      (NodeConfig → Result NodeConfig) → List NodeConfig → Result (List NodeConfig)
  change_all f [] = ok []
  change_all f (c ∷ cs) = bind_result (f c) λ c'. bind_result (change_all f cs) λ cs'. ok (c' ∷ cs')

  -- A node config with more flags.
  unfoldable with_flags : Dict Value → NodeConfig → Result NodeConfig
  unfolding assign_all
  with_flags flags c = bind_result (assign_all flags c.flags) λ all. ok (record c { flags = all })

  -- The directory that the saved database of a node is copied to.
  unfoldable target_db_dir : LocalNetwork W → NodeConfig → String
  target_db_dir ln c = W.join (W.join ln.root_dir c.name) "db"

  unfoldable load_db : LocalNetwork W → String → NodeConfig → Exec (System W) (Unit {0})
  unfolding target_db_dir with_flags
  load_db ln dir c = do
    outside W (
        wrap_exec ("failure loading node " <> c.name)
          (W.copy_dir (W.join (W.join dir "db") c.name) (target_db_dir ln c)))
    lift (bind_result (with_flags ((W.db_path_key, text (target_db_dir ln c)) ∷ []) c) λ _. ok tt)

  unfoldable plugin_flags : String → Dict Value
  plugin_flags dir = if dir == "" then [] else (W.plugin_dir_key, text dir) ∷ []

  -- The flags and files that a load puts over those of the snapshot.
  unfoldable placed : LocalNetwork W → String → String → NodeConfig → Result NodeConfig
  unfolding target_db_dir with_flags plugin_flags
  placed ln binary_path plugin_dir c =
      bind_result (with_flags ((W.db_path_key, text (target_db_dir ln c)) ∷ []) c) λ d.
        bind_result (with_flags (plugin_flags plugin_dir) d) λ e.
          ok (record e { binary_path = if binary_path == "" then e.binary_path else binary_path })

  unfoldable with_configs : Dict String → Dict String → Dict String → NodeConfig → NodeConfig
  unfolding set_all insert
  with_configs chains upgrades subnets c = record c {
    chain_config_files = some (set_all chains (entries c.chain_config_files));
    upgrade_config_files = some (set_all upgrades (entries c.upgrade_config_files));
    subnet_config_files = some (set_all subnets (entries c.subnet_config_files));
  }

  -- `loadSnapshot`
  unfoldable pub load_snapshot :
      String
      → String
      → String
      → Dict String
      → Dict String
      → Dict String
      → Dict Value
      → Exec (System W) (Unit {0})
  unfolding snapshot_dir snapshot_found fix_flags fix_node change_all with_flags load_db placed
      with_configs for_each load_config
  load_snapshot name binary_path plugin_dir chains upgrades subnets flags s =
      (do
        let dir = snapshot_dir s.net name
        lift (snapshot_found (W.stat dir s.world))
        body ← lift (
            wrapping "failure reading network config file from snapshot"
              (W.read_file (W.join dir "network.json") s.world))
        cfg ← lift (
            wrapping "failure unmarshaling network config from snapshot"
              (W.parse_network_config body))
        net_flags ← lift (fix_flags cfg.flags)
        fixed ← lift (change_all fix_node cfg.node_configs)
        flagged ← lift (change_all (with_flags flags) fixed)
        for_each flagged (load_db s.net dir)
        nodes ← lift (change_all (placed s.net binary_path plugin_dir) flagged)
        load_config W (record cfg {
          flags = net_flags;
          node_configs = map (with_configs chains upgrades subnets) nodes;
        }))
        s

  unfoldable pub remove_snapshot : String → Exec (System W) (Unit {0})
  unfolding snapshot_dir snapshot_found
  remove_snapshot name s =
      (do
        lift (snapshot_found (W.stat (snapshot_dir s.net name) s.world))
        outside W
            (wrap_exec "failure removing snapshot path" (W.remove_all (snapshot_dir s.net name))))
        s

  unfoldable snapshots_dir_found : Stat → Result (Unit {0})
  snapshots_dir_found Stat.present = ok tt
  snapshots_dir_found Stat.absent = err (message "snapshots dir does not exists")
  snapshots_dir_found (Stat.unreadable e) = err (wrap "failure accessing snapshots dir" e)

  unfoldable pub get_snapshot_names : System W → Result (List String)
  unfolding snapshots_dir_found
  get_snapshot_names s = bind_result (snapshots_dir_found (W.stat s.net.snapshots_dir s.world)) λ _.
      bind_result (W.glob (W.join s.net.snapshots_dir "anr-snapshot-*") s.world)
        λ matches. ok (map (λ m. W.trim_prefix (W.base m) "anr-snapshot-") matches)
