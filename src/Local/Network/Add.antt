-- ===== src/Local/Network/Add.antt =====
-- `addNode` of local/network.go. The maps of the config that the caller passes are written through;
-- `with_defaults` gives them as they are afterwards.
pub mod Outcome
use cnr_sandbox.Base.{
  String, ◌<>◌, Bool, false, not, ◌&&◌, ◌||◌, Option, none, some, ◌==◌, if◌then◌else◌, [],
}
use cnr_sandbox.Base.Dict.{Dict, insert, set_missing}
use cnr_sandbox.Base.Exec.{
  Result, ok, err, crash, Exec, pure, fail, panic, lift, get, ◌>>=◌, wrap_exec, wrapping, message,
}
use cnr_sandbox.Config.{Value, NodeConfig}
use cnr_sandbox.World.{World}
use cnr_sandbox.Local.State.{LocalNode, LocalNetwork, System, outside, entries}
use cnr_sandbox.Local.Files.{make_node_dir}
use cnr_sandbox.Local.Args.{BuildArgsReturn, build_args}
use cnr_sandbox.Local.Network.Names.{set_node_name, is_paused_node}

module _ (W : World) where
  -- The network's values where the node config has none. A nil map becomes a map.
  unfoldable pub with_defaults : LocalNetwork W → NodeConfig → NodeConfig
  unfolding set_missing insert
  with_defaults ln c = record c {
    flags = some (set_missing (entries ln.flags) (entries c.flags));
    chain_config_files =
        some (set_missing (entries ln.chain_config_files) (entries c.chain_config_files));
    upgrade_config_files =
        some (set_missing (entries ln.upgrade_config_files) (entries c.upgrade_config_files));
    subnet_config_files =
        some (set_missing (entries ln.subnet_config_files) (entries c.subnet_config_files));
    binary_path = if c.binary_path == "" then ln.binary_path else c.binary_path;
  }

  ensure_cert : NodeConfig → Exec W.State NodeConfig
  ensure_cert c =
      if c.staking_cert == "" || c.staking_key == ""
      then (do
        pair ← wrap_exec "couldn't generate staking Cert/Key" W.new_cert_and_key
        pure (record c { staking_cert = pair.0; staking_key = pair.1 }))
      else pure c

  ensure_signing_key : NodeConfig → Exec W.State NodeConfig
  ensure_signing_key c =
      if c.staking_signing_key == ""
      then (do
        key ← wrap_exec "couldn't generate new signing key" W.new_signing_key
        pure (record c { staking_signing_key = key }))
      else pure c

  read_config_file : String → Result (Dict Value)
  read_config_file file =
      if file == "" then ok [] else wrapping "couldn't unmarshal config file" (W.parse_json file)

  version_of : NodeConfig → Option String → Result String
  version_of c none = err (message "version pattern not found")
  version_of c (some v) = ok ("v" <> v)

  unfoldable get_node_sem_ver : NodeConfig → Exec W.State String
  unfolding version_of
  get_node_sem_ver c = do
    output ← wrap_exec "couldn't get node version" (W.node_version c)
    lift (version_of c (W.find_version output))

  unfoldable local_node :
      LocalNetwork W → NodeConfig → BuildArgsReturn → String → W.Process → LocalNode W
  local_node ln c built node_id process = record {
    name = c.name;
    node_id = node_id;
    network_id = ln.network_id;
    process = process;
    api_port = built.api_port;
    p2p_port = built.p2p_port;
    data_dir = built.data_dir;
    db_dir = built.db_dir;
    logs_dir = built.logs_dir;
    plugin_dir = built.plugin_dir;
    config = c;
    http_host = built.http_host;
    paused = false;
  }

  set_bootstraps : LocalNode W → Result W.Beacons → Exec (System W) (LocalNode W)
  set_bootstraps node (ok beacons) s =
      pure node (record s { net = record s.net { bootstraps = beacons } })
  set_bootstraps node (err e) s = fail e s
  set_bootstraps node (crash m) s = panic m s

  -- The end of `addNode`: the node is in the map also where the beacon set refuses it.
  unfoldable pub register : LocalNode W → Bool → Exec (System W) (LocalNode W)
  unfolding set_bootstraps insert
  register node was_paused s =
      let t : System W = record s {
        net = record s.net { nodes = insert node.name node s.net.nodes };
      } in
      if not was_paused && node.config.is_beacon
      then set_bootstraps node (W.add_beacon node.node_id node.p2p_port t.net.bootstraps) t
      else pure node t

  -- From a complete config to a running process.
  unfoldable pub launch : NodeConfig → Exec (System W) (LocalNode W)
  unfolding make_node_dir read_config_file get_node_sem_ver build_args local_node
  launch c = do
    s ← get
    let ln = s.net
    node_dir ← outside W (make_node_dir W ln.root_dir c.name)
    config_file ← lift (read_config_file c.config_file)
    version ← outside W (get_node_sem_ver c)
    built ← outside W (build_args W ln version config_file node_dir c)
    node_id ← lift (wrapping "couldn't get node ID" (W.node_id_of c.staking_key c.staking_cert))
    process ← outside W (wrap_exec "couldn't create new node process" (W.new_process c built.args))
    pure (local_node ln c built node_id process)

  -- Everything before the node enters the network: the node, and whether it was paused.
  unfoldable pub prepare : NodeConfig → Exec (System W) (LocalNode W × Bool)
  unfolding with_defaults ensure_cert ensure_signing_key launch set_node_name is_paused_node
  prepare given = do
    s ← get
    certified ← outside W (ensure_cert (with_defaults s.net given))
    complete ← outside W (ensure_signing_key certified)
    c ← set_node_name W complete
    t ← get
    node ← launch c
    pure (node, is_paused_node W t.net c.name)

  unfoldable pub add_node : NodeConfig → Exec (System W) (LocalNode W)
  unfolding prepare register
  add_node given = do prepared ← prepare given; register prepared.0 prepared.1
