-- ===== src/Local/Args.antt =====
-- The command line of a node: `buildArgs` and `getFlagsForAvagoVersion` of local/network.go.
pub mod Flags
pub mod Sources
use cnr_sandbox.Base.{
  ℕ, String, ◌<>◌, ◌||◌, Option, none, some, List, [], ◌∷◌, map, ◌==◌, if◌then◌else◌,
}
use cnr_sandbox.Base.Dict.{Dict, lookup, insert, erase, set_all}
use cnr_sandbox.Base.Exec.{Exec, pure, lift, ◌>>=◌}
use cnr_sandbox.Config.{Value, NodeConfig}
use cnr_sandbox.World.{World}
use cnr_sandbox.Local.State.{LocalNetwork, entries}
use cnr_sandbox.Local.Ports.{get_config_entry, get_port}
use cnr_sandbox.Local.Files.{write_files}

-- An entry of deprecatedFlagsSupport.json.
pub record DeprecatedFlag : Type 0 where
  pub version : String
  pub old_name : String
  pub new_name : String
  pub value_map : String

abbrev deprecated_flags_support : List DeprecatedFlag
deprecated_flags_support =
    record {
      version = "v0.4.1";
      old_name = "build-dir";
      new_name = "plugin-dir";
      value_map = "parent-dir";
    }
    ∷ record {
      version = "v0.4.1";
      old_name = "whitelisted-subnets";
      new_name = "track-subnets";
      value_map = "";
    }
    ∷ []

pub record BuildArgsReturn : Type 0 where
  pub args : List String
  pub api_port : ℕ
  pub p2p_port : ℕ
  pub data_dir : String
  pub db_dir : String
  pub logs_dir : String
  pub plugin_dir : String
  pub http_host : String

module _ (W : World) where
  -- The value under the old name.
  old_value : DeprecatedFlag → String → String
  old_value info v = if info.value_map == "parent-dir" then W.dir (W.trim_suffix v "/") else v

  rename_flag : DeprecatedFlag → Option String → Dict String → Dict String
  unfolding old_value insert erase
  rename_flag info none flags = flags
  rename_flag info (some v) flags =
      erase info.new_name (if v == "" then flags else insert info.old_name (old_value info v) flags)

  -- One round of the loop over the deprecated flags.
  unfoldable pub downgrade_flag : String → DeprecatedFlag → Dict String → Dict String
  unfolding rename_flag lookup
  downgrade_flag version info flags =
      if W.version_lt version info.version
      then rename_flag info (lookup info.new_name flags) flags
      else flags

  downgrade_flags : String → List DeprecatedFlag → Dict String → Dict String
  unfolding downgrade_flag
  downgrade_flags version [] flags = flags
  downgrade_flags version (info ∷ rest) flags =
      downgrade_flags version rest (downgrade_flag version info flags)

  unfoldable pub get_flags_for_avago_version : String → Dict String → Dict String
  unfolding downgrade_flags
  get_flags_for_avago_version version given = downgrade_flags version deprecated_flags_support given

  -- The flags of the node config, but the two ports, printed.
  unfoldable pub printed_flags : Dict Value → Dict String
  printed_flags [] = []
  printed_flags ((k, v) ∷ flags) =
      let rest = printed_flags flags in
      if k == W.http_port_key || k == W.staking_port_key then rest else (k, W.print_value v) ∷ rest

  -- The flags that the runner itself gives a node.
  unfoldable pub runner_flags : LocalNetwork W → String → String → String → ℕ → ℕ → Dict String
  runner_flags ln data_dir db_dir logs_dir api_port p2p_port =
      (W.network_name_key, W.print_nat ln.network_id)
      ∷ (W.data_dir_key, data_dir)
      ∷ (W.db_path_key, db_dir)
      ∷ (W.logs_dir_key, logs_dir)
      ∷ (W.http_port_key, W.print_nat api_port)
      ∷ (W.staking_port_key, W.print_nat p2p_port)
      ∷ (W.bootstrap_ips_key, W.ips_arg ln.bootstraps)
      ∷ (W.bootstrap_ids_key, W.ids_arg ln.bootstraps)
      ∷ []

  -- The three sources of flags, the later over the earlier: the runner, the files, the node config.
  unfoldable pub all_flags : Dict String → Dict String → Dict Value → Dict String
  unfolding printed_flags set_all insert
  all_flags runner file_flags config_flags =
      set_all (printed_flags config_flags) (set_all file_flags runner)

  abbrev pub format_arg : String × String → String
  format_arg e = "--" <> e.0 <> "=" <> e.1

  -- `buildArgs` once the directories and the ports are known.
  unfoldable pub build_args_with :
      LocalNetwork W → String → NodeConfig → BuildArgsReturn → Exec W.State BuildArgsReturn
  unfolding write_files runner_flags all_flags get_flags_for_avago_version
  build_args_with ln version c place = do
    file_flags ← write_files W ln.network_id ln.genesis place.data_dir c
    let runner =
        runner_flags ln place.data_dir place.db_dir place.logs_dir place.api_port place.p2p_port
    let given = get_flags_for_avago_version version (all_flags runner file_flags (entries c.flags))
    pure (record place { args = map format_arg given })

  unfoldable pub build_args :
      LocalNetwork W → String → Dict Value → String → NodeConfig → Exec W.State BuildArgsReturn
  unfolding get_config_entry get_port build_args_with
  build_args ln version config_file node_dir c = do
    let flags = entries c.flags
    http_host ← lift (get_config_entry flags config_file W.http_host_key "")
    data_dir ← lift (get_config_entry flags config_file W.data_dir_key node_dir)
    plugin_dir ← lift (get_config_entry flags config_file W.plugin_dir_key "")
    db_dir ← lift (get_config_entry flags config_file W.db_path_key (W.join data_dir "db"))
    logs_dir ← lift (get_config_entry flags config_file W.logs_dir_key (W.join data_dir "logs"))
    api_port ← get_port W flags config_file W.http_port_key ln.reassign_ports_if_used
    p2p_port ← get_port W flags config_file W.staking_port_key ln.reassign_ports_if_used
    build_args_with ln version c (record {
      args = [];
      api_port = api_port;
      p2p_port = p2p_port;
      data_dir = data_dir;
      db_dir = db_dir;
      logs_dir = logs_dir;
      plugin_dir = plugin_dir;
      http_host = http_host;
    })
