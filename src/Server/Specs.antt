-- ===== src/Server/Specs.antt =====
-- Requests checked and their files read: `CheckExecPath`, `CheckPluginPaths`,
-- `MkDirWithTimestamp` of utils/utils.go, and `getNetworkBlockchainSpec`, `getNetworkSubnetSpec` of
-- server/server.go. Reading leaves the state alone, so these are functions of the state.
use cnr_sandbox.Base.{
  String, ◌<>◌, Bool, ◌&&◌, Option, none, some, List, [], ◌∷◌, ◌==◌, if◌then◌else◌, has_value,
}
use cnr_sandbox.Base.Dict.{Dict}
use cnr_sandbox.Base.Exec.{
  Error, Result, ok, err, crash, Exec, pure, ◌>>◌, bind_result, wrap, message, err_invalid_vm_name,
  err_invalid_exec_path, err_not_exists, err_not_exists_plugin, err_not_exists_plugin_genesis,
}
use cnr_sandbox.Config.{Value}
use cnr_sandbox.World.{Stat}
use cnr_sandbox.Config.Specs.{vm_id, SubnetSpec, BlockchainSpec}
use cnr_sandbox.Server.State.{SubnetRequest, BlockchainRequest}
use cnr_sandbox.Server.Backend.{Backend}

-- The result of `os.Stat`, with the error for a path that is not there.
unfoldable stat_result : Error → String → Stat → Result (Unit {0})
stat_result missing context Stat.present = ok tt
stat_result missing context Stat.absent = err missing
stat_result missing context (Stat.unreadable e) = err (wrap context e)

module _ (B : Backend) where
  unfoldable pub check_exec_path : String → B.State → Result (Unit {0})
  unfolding stat_result
  check_exec_path exec s =
      if exec == ""
      then err err_invalid_exec_path
      else stat_result err_not_exists "failed to stat exec" (B.stat exec s)

  unfoldable check_plugin_paths : String → String → B.State → Result (Unit {0})
  unfolding stat_result
  check_plugin_paths exec genesis s =
      bind_result (stat_result err_not_exists_plugin "failed to stat plugin exec" (B.stat exec s))
        λ _.
          stat_result err_not_exists_plugin_genesis "failed to stat plugin genesis"
            (B.stat genesis s)

  unfoldable pub mkdir_with_timestamp : String → Exec B.State String
  mkdir_with_timestamp prefix s =
      let name = prefix <> "_" <> B.time_stamp s in (B.mkdir_all name >> pure name) s

  -- A file that is only read where a path is given.
  unfoldable read_optional : String → B.State → Result (Option String)
  read_optional path s =
      if path == "" then ok none else bind_result (B.read_file path s) λ body. ok (some body)

  unfoldable marshal_all : Dict Value → Result (Dict String)
  marshal_all [] = ok []
  marshal_all ((k, v) ∷ d) =
      bind_result (B.print_json v) λ text. bind_result (marshal_all d) λ rest. ok ((k, text) ∷ rest)

  unfoldable read_per_node : String → B.State → Result (Dict String)
  unfolding marshal_all
  read_per_node path s =
      if path == ""
      then ok []
      else bind_result (B.read_file path s)
          λ body. bind_result (B.parse_json body) λ configs. marshal_all configs

  -- Any failure to make a VM ID is reported as an invalid name.
  unfoldable checked_vm_id : String → Result String
  unfolding vm_id
  checked_vm_id name = elim (vm_id B.padded_id name) [
    | ok id ↦ ok id
    | err e ↦ err err_invalid_vm_name
    | crash m ↦ crash m
  ]

  unfoldable subnet_config_path : Option SubnetRequest → String
  subnet_config_path none = ""
  subnet_config_path (some r) = r.subnet_config

  unfoldable subnet_spec_of : Option SubnetRequest → Option String → Option SubnetSpec
  subnet_spec_of none config = none
  subnet_spec_of (some r) config =
      some (record { participants = r.participants; subnet_config = config })

  unfoldable get_network_blockchain_spec :
      BlockchainRequest → Bool → String → B.State → Result BlockchainSpec
  unfolding checked_vm_id check_plugin_paths read_optional read_per_node subnet_config_path
      subnet_spec_of
  get_network_blockchain_spec r is_new_empty_network plugin_dir s =
      if is_new_empty_network && has_value r.subnet_id
      then err (message "blockchain subnet id must be nil if starting a new empty network")
      else bind_result (checked_vm_id r.vm_name) λ id.
        bind_result
          (if plugin_dir == ""
            then ok tt
            else check_plugin_paths (B.join plugin_dir id) r.genesis s)
          λ _. bind_result (B.read_file r.genesis s) λ genesis.
            bind_result (read_optional r.chain_config s) λ chain_config.
              bind_result (read_optional r.network_upgrade s) λ upgrade.
                bind_result (read_optional (subnet_config_path r.subnet_spec) s) λ subnet_config.
                  bind_result (read_per_node r.per_node_chain_config s) λ per_node. ok (record {
                    vm_name = r.vm_name;
                    genesis = genesis;
                    chain_config = chain_config;
                    network_upgrade = upgrade;
                    subnet_id = r.subnet_id;
                    subnet_spec = subnet_spec_of r.subnet_spec subnet_config;
                    blockchain_alias = r.blockchain_alias;
                    per_node_chain_config = per_node;
                  })

  unfoldable get_network_subnet_spec : SubnetRequest → B.State → Result SubnetSpec
  unfolding read_optional
  get_network_subnet_spec r s =
      bind_result (read_optional r.subnet_config s)
        λ config. ok (record { participants = r.participants; subnet_config = config })

  unfoldable pub blockchain_specs :
      List BlockchainRequest → Bool → String → B.State → Result (List BlockchainSpec)
  unfolding get_network_blockchain_spec
  blockchain_specs [] fresh plugin_dir s = ok []
  blockchain_specs (r ∷ rs) fresh plugin_dir s =
      bind_result (get_network_blockchain_spec r fresh plugin_dir s)
        λ spec. bind_result (blockchain_specs rs fresh plugin_dir s) λ specs. ok (spec ∷ specs)

  unfoldable pub subnet_specs : List SubnetRequest → B.State → Result (List SubnetSpec)
  unfolding get_network_subnet_spec
  subnet_specs [] s = ok []
  subnet_specs (r ∷ rs) s =
      bind_result (get_network_subnet_spec r s)
        λ spec. bind_result (subnet_specs rs s) λ specs. ok (spec ∷ specs)
