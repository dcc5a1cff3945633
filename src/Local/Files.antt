-- ===== src/Local/Files.antt =====
-- The files of local/helpers.go that a node needs at its start.
use cnr_sandbox.Base.{ℕ, String, ◌<>◌, List, [], ◌∷◌, ◌++◌, ◌==◌, ◌=?◌, if◌then◌else◌}
use cnr_sandbox.Base.Dict.{Dict, insert}
use cnr_sandbox.Base.Exec.{Exec, pure, fail, lift, ◌>>=◌, ◌>>◌, wrap, wrap_exec, for_each}
use cnr_sandbox.Config.{NodeConfig}
use cnr_sandbox.World.{World, Mkdir}
use cnr_sandbox.Local.State.{entries}

record File : Type 0 where
  flag_value : String
  path : String
  path_key : String
  contents : String

module _ (W : World) where
  unfoldable get_node_dir : String → String → String
  get_node_dir root_dir node_name = W.join root_dir node_name

  -- A directory that exists already is only a warning.
  unfoldable pub make_node_dir : String → String → Exec W.State String
  unfolding get_node_dir
  make_node_dir root_dir node_name s =
      let node_root_dir = get_node_dir root_dir node_name in
      let (outcome, s') = W.mkdir node_root_dir s in
      elim outcome [
        | Mkdir.made ↦ pure node_root_dir s'
        | Mkdir.exists ↦ pure node_root_dir s'
        | Mkdir.refused e ↦ fail (wrap "error creating temp dir" e) s'
      ]

  unfoldable pub create_file_and_write : String → String → Exec W.State (Unit {0})
  create_file_and_write path contents = do
    W.mkdir_all (W.dir path)
    W.create path
    W.write path contents

  -- A file of the node directory and the flag that points to it.
  node_file : String → String → String → String → File
  node_file node_root_dir file_name path_key contents = record {
    flag_value = W.join node_root_dir file_name;
    path = W.join node_root_dir file_name;
    path_key = path_key;
    contents = contents;
  }

  node_files : ℕ → String → String → NodeConfig → String → List File
  unfolding node_file
  node_files network_id genesis node_root_dir c signing_key =
      node_file node_root_dir "staking.key" W.staking_tls_key_path_key c.staking_key
      ∷ node_file node_root_dir "staking.crt" W.staking_cert_path_key c.staking_cert
      ∷ node_file node_root_dir "signer.key" W.staking_signer_key_path_key signing_key
      ∷ ((if network_id =? W.local_id
            then []
            else node_file node_root_dir "genesis.json" W.genesis_config_file_key genesis ∷ [])
          ++ (if c.config_file == ""
              then []
              else node_file node_root_dir "config.json" W.config_file_key c.config_file ∷ []))

  write_node_files : List File → Dict String → Exec W.State (Dict String)
  unfolding create_file_and_write insert
  write_node_files [] flags = pure flags
  write_node_files (f ∷ fs) flags = do
    wrap_exec ("couldn't write file at " <> f.path) (create_file_and_write f.path f.contents)
    write_node_files fs (insert f.path_key f.flag_value flags)

  -- `dir/alias/file` for each alias of a map.
  write_alias_files : String → String → Dict String → Exec W.State (Unit {0})
  unfolding create_file_and_write for_each
  write_alias_files dir file_name files = for_each files λ e.
      let path = W.join (W.join dir e.0) file_name in
      wrap_exec ("couldn't write file at " <> path) (create_file_and_write path e.1)

  write_subnet_files : String → Dict String → Exec W.State (Unit {0})
  unfolding create_file_and_write for_each
  write_subnet_files dir files = for_each files λ e.
      let path = W.join dir (e.0 <> ".json") in
      wrap_exec ("couldn't write file at " <> path) (create_file_and_write path e.1)

  unfoldable pub write_files : ℕ → String → String → NodeConfig → Exec W.State (Dict String)
  unfolding node_files write_node_files write_alias_files write_subnet_files insert
  write_files network_id genesis node_root_dir c = do
    signing_key ← lift (W.decode_base64 c.staking_signing_key)
    flags ← write_node_files (node_files network_id genesis node_root_dir c signing_key) []
    let chain_config_dir = W.join node_root_dir "chainConfigs"
    W.mkdir_all chain_config_dir
    let subnet_config_dir = W.join node_root_dir "subnetConfigs"
    W.mkdir_all subnet_config_dir
    write_alias_files chain_config_dir "config.json" (entries c.chain_config_files)
    write_alias_files chain_config_dir "upgrade.json" (entries c.upgrade_config_files)
    write_subnet_files subnet_config_dir (entries c.subnet_config_files)
    pure (
        insert W.subnet_config_dir_key subnet_config_dir
          (insert W.chain_config_dir_key chain_config_dir flags))
