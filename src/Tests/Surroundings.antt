-- ===== src/Tests/Surroundings.antt =====
-- A small world: the state is a number that calls count up, every call to the outside succeeds.
use cnr_sandbox.Base.{
  ℕ, zero, suc, ◌%◌, ◌^◌, String, ◌<>◌, true, false, none, some, List, [], ◌∷◌, ◌==◌, if◌then◌else◌,
  not, ◌=?◌, pos,
}
use cnr_sandbox.Base.Exec.{ok, err, external}
use cnr_sandbox.Config.{text, float, NodeConfig, NetworkConfig}
use cnr_sandbox.World.{World, Stat, Mkdir}
use cnr_sandbox.Local.State.{LocalNode, LocalNetwork, System}
use cnr_sandbox.Server.State.{ClusterInfo}
use cnr_sandbox.Server.Backend.{Backend, NodeView}

-- A number in tallies.
abbrev pub tally : ℕ → String
tally zero = ""
tally (suc n) = "|" <> tally n

abbrev pub node_config : NodeConfig
node_config = record {
  name = "";
  is_beacon = true;
  staking_key = "key";
  staking_cert = "cert";
  staking_signing_key = "signer";
  config_file = "";
  chain_config_files = some [];
  upgrade_config_files = some [];
  subnet_config_files = some [];
  flags = some [];
  binary_path = "node";
  redirect_stdout = false;
  redirect_stderr = false;
}

abbrev pub network_config : NetworkConfig
network_config = record {
  genesis = "genesis";
  node_configs = node_config ∷ [];
  flags = some [];
  binary_path = "node";
  chain_config_files = some [];
  upgrade_config_files = some [];
  subnet_config_files = some [];
}

abbrev pub world : World
world = record {
  State = ℕ;
  parse_json = λ body. ok (("networkID", float 1337) ∷ []);
  print_json = λ d. ok "{}";
  decode_base64 = λ s. ok s;
  float_to_int = λ f. pos f;
  float_to_uint16 = λ f. f % 2 ^ 16;
  float_to_uint32 = λ f. f % 2 ^ 32;
  print_nat = tally;
  print_value = λ v. "value";
  join = λ a b. a <> "/" <> b;
  dir = λ a. a;
  base = λ a. a;
  trim_prefix = λ a p. a;
  trim_suffix = λ a p. a;
  version_lt = λ a b. a == "v0.3.0";
  find_version = λ out. some "1.0";
  network_name_key = "network-id";
  data_dir_key = "data-dir";
  db_path_key = "db-dir";
  logs_dir_key = "log-dir";
  http_host_key = "http-host";
  http_port_key = "http-port";
  staking_port_key = "staking-port";
  plugin_dir_key = "plugin-dir";
  track_subnets_key = "track-subnets";
  bootstrap_ips_key = "bootstrap-ips";
  bootstrap_ids_key = "bootstrap-ids";
  staking_tls_key_path_key = "staking-tls-key-file";
  staking_cert_path_key = "staking-tls-cert-file";
  staking_signer_key_path_key = "staking-signer-key-file";
  genesis_config_file_key = "genesis";
  config_file_key = "config-file";
  chain_config_dir_key = "chain-config-dir";
  subnet_config_dir_key = "subnet-config-dir";
  local_id = 12345;
  network_name = λ n. "network";
  new_cert_and_key = λ s. (ok ("cert", "key"), suc s);
  new_signing_key = λ s. (ok "signer", suc s);
  node_id_of = λ k c. ok "NodeID";
  stat = λ p s. if p == "snapshots/anr-snapshot-old" then Stat.present else Stat.absent;
  mkdir = λ p s. (Mkdir.made, suc s);
  mkdir_all = λ p s. (ok tt, suc s);
  create = λ p s. (ok tt, suc s);
  write = λ p c s. (ok tt, suc s);
  read_file = λ p s. ok "";
  remove_all = λ p s. (ok tt, suc s);
  copy_dir = λ a b s. (ok tt, suc s);
  glob = λ p s. ok [];
  intn = λ n s. (0, suc s);
  listen = λ p s. (not (p =? 9650), suc s);
  polls = λ s. 3;
  Beacons = List String;
  no_beacons = [];
  add_beacon = λ id port b. ok (id ∷ b);
  remove_beacon = λ id b. [];
  ips_arg = λ b. "";
  ids_arg = λ b. "";
  Process = String;
  node_version = λ c s. (ok "v1.0", suc s);
  new_process =
      λ c args s. (if c.name == "bad" then err (external "no process") else ok c.name, suc s);
  stop_process = λ p s. (pos 0, suc s);
  close_client = λ p s. suc s;
  joined = λ es. none;
  parse_network_config = λ body. ok network_config;
  print_network_config = λ c. ok "";
}

abbrev pub runner : LocalNode world
runner = record {
  name = "node";
  node_id = "NodeID";
  network_id = 1337;
  process = "process";
  api_port = 9650;
  p2p_port = 9651;
  data_dir = "data";
  db_dir = "db";
  logs_dir = "logs";
  plugin_dir = "plugins";
  config = node_config;
  http_host = "";
  paused = false;
}

abbrev pub sleeper : LocalNode world
sleeper = record runner { name = "node|"; paused = true }

abbrev pub empty_network : LocalNetwork world
empty_network = record {
  network_id = 1337;
  genesis = "genesis";
  stop_called = false;
  next_node_suffix = 0;
  nodes = [];
  bootstraps = [];
  root_dir = "root";
  snapshots_dir = "snapshots";
  flags = some (("log-level", text "info") ∷ []);
  binary_path = "node";
  chain_config_files = some [];
  upgrade_config_files = some [];
  subnet_config_files = some [];
  reassign_ports_if_used = false;
}

abbrev pub fresh : System world
fresh = record { net = empty_network; world = 0 }

-- A node that runs and one that is paused.
abbrev pub two : System world
two = record {
  net = record empty_network { nodes = ("node", runner) ∷ ("node|", sleeper) ∷ [] };
  world = 0;
}

abbrev pub new_info : String → ClusterInfo
new_info root = record {
  pid = 1;
  root_data_dir = root;
  healthy = false;
  node_names = [];
  node_infos = [];
  attached_peer_infos = [];
  custom_chains_healthy = false;
  custom_chains = [];
  subnets = [];
  subnet_participants = [];
}

abbrev pub view : NodeView
view = record {
  name = "node|";
  url = "127.0.0.1";
  api_port = 9650;
  node_id = "NodeID";
  binary_path = "bin";
  logs_dir = "logs";
  db_dir = "db";
  config_file = "";
  plugin_dir = "plugins";
  paused = false;
  flag = λ k. ok "";
}

-- One node that is always there.
abbrev pub backend : Backend
backend = record {
  State = ℕ;
  Handle = ℕ;
  new_network = λ c o s. (ok 7, suc s);
  new_network_from_snapshot = λ n o b p f s. (ok 7, suc s);
  default_config = λ b n s. (ok network_config, suc s);
  healthy = λ h s. (ok tt, suc s);
  stop = λ h s. (ok tt, suc s);
  add_node = λ h c s. (ok tt, suc s);
  remove_node = λ h n s. (ok tt, suc s);
  pause_node = λ h n s. (ok tt, suc s);
  resume_node = λ h n s. (ok tt, suc s);
  restart_node = λ h o n s. (ok tt, suc s);
  get_node = λ h n s. (ok view, s);
  get_all_nodes = λ h s. (ok (("node|", view) ∷ []), s);
  create_blockchains = λ h b s. (ok [], suc s);
  create_subnets = λ h b s. (ok [], suc s);
  save_snapshot = λ h n s. (ok n, suc s);
  remove_snapshot = λ h n s. (ok tt, suc s);
  get_snapshot_names = λ h s. (ok [], s);
  attach_peer = λ n s. (ok "peer", suc s);
  send_outbound_message = λ n p b o s. (ok true, suc s);
  get_blockchains = λ n s. (ok [], s);
  get_subnets = λ n s. (ok [], s);
  get_current_validators = λ n i s. (ok [], s);
  platform_chain_id = "11111111111111111111111111111111LpoYY";
  sort = λ l. l;
  print_nat = tally;
  join = λ a b. a <> "/" <> b;
  temp_dir = "tmp";
  pid = 1;
  time_stamp = λ s. "now";
  mkdir_all = λ p s. (ok tt, suc s);
  stat = λ p s. Stat.present;
  read_file = λ p s. ok "";
  parse_json = λ b. ok [];
  print_json = λ v. ok "";
  print_cluster = λ c. ok "";
  parse_cluster = λ b. ok (new_info "root");
  padded_id = λ n. n;
  http_port_key = "http-port";
  staking_port_key = "staking-port";
  plugin_dir_key = "plugin-dir";
  track_subnets_key = "track-subnets";
  make_logger = λ d s. (ok tt, suc s);
}
