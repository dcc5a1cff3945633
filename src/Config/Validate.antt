-- ===== src/Config/Validate.antt =====
-- `Validate` of network/config.go and network/node/node.go, `NetworkIDFromGenesis` of utils/utils.go.
pub mod Accepted
use cnr_sandbox.Base.{
  ℕ, ◌+◌, String, ◌<>◌, Bool, false, ◌||◌, Option, none, some, List, [], ◌∷◌, ◌==◌, ◌=?◌,
  if◌then◌else◌, is_empty,
}
use cnr_sandbox.Base.Dict.{Dict, lookup}
use cnr_sandbox.Base.Exec.{
  Result, ok, err, message, missing_key, wrong_flag_type, wrapping, bind_result,
}
use cnr_sandbox.Config.{Value, text, float, type_name, NodeConfig, NetworkConfig}
use cnr_sandbox.World.{World}

module _ (W : World) where
  network_id_of : Option Value → Result ℕ
  network_id_of none = err (missing_key "networkID")
  network_id_of (some (float f)) = ok (W.float_to_uint32 f)
  network_id_of (some v) = err (wrong_flag_type "networkID" "float64" (type_name v))

  unfoldable pub network_id_from_genesis : String → Result ℕ
  unfolding network_id_of lookup
  network_id_from_genesis genesis =
      bind_result (wrapping "couldn't unmarshal genesis" (W.parse_json genesis))
        λ entries. network_id_of (lookup "networkID" entries)

  -- The entry under a key, if there is one, must be a string.
  check_text : String → Option Value → Result (Unit {0})
  check_text key none = ok tt
  check_text key (some (text s)) = ok tt
  check_text key (some v) = err (wrong_flag_type key "string" (type_name v))

  check_float : String → Option Value → Result (Unit {0})
  check_float key none = ok tt
  check_float key (some (float f)) = ok tt
  check_float key (some v) = err (wrong_flag_type key "float64" (type_name v))

  check_network_id : ℕ → Option Value → Result (Unit {0})
  check_network_id expected none = ok tt
  check_network_id expected (some (float f)) =
      if W.float_to_uint32 f =? expected
      then ok tt
      else err (message "config file network id differs from genesis network id")
  check_network_id expected (some v) =
      err (wrong_flag_type W.network_name_key "float64" (type_name v))

  check_entries : Dict Value → ℕ → Result (Unit {0})
  unfolding check_text check_float check_network_id
  check_entries entries expected =
      bind_result (check_network_id expected (lookup W.network_name_key entries)) λ _.
        bind_result (check_text W.db_path_key (lookup W.db_path_key entries)) λ _.
          bind_result (check_text W.logs_dir_key (lookup W.logs_dir_key entries)) λ _.
            bind_result (check_float W.http_port_key (lookup W.http_port_key entries))
              λ _. check_float W.staking_port_key (lookup W.staking_port_key entries)

  unfoldable pub validate_config_file : String → ℕ → Result (Unit {0})
  unfolding check_entries
  validate_config_file file expected =
      if file == ""
      then ok tt
      else bind_result (wrapping "could not unmarshal config file" (W.parse_json file))
          λ entries. check_entries entries expected

  unfoldable pub validate_node : NodeConfig → ℕ → Result (Unit {0})
  validate_node c expected =
      if c.staking_key == ""
      then err (message "staking key not given")
      else if c.staking_cert == ""
      then err (message "staking cert not given")
      else validate_config_file c.config_file expected

  -- The loop over the node configs: the index names a node without a name in errors.
  unfoldable pub validate_nodes : List NodeConfig → ℕ → Bool → ℕ → Result Bool
  validate_nodes [] index some_beacon expected = ok some_beacon
  validate_nodes (c ∷ cs) index some_beacon expected =
      bind_result
        (wrapping
          ("node "
            <> (if c.name == "" then W.print_nat index else c.name)
            <> " config failed validation")
          (validate_node c expected))
        λ _. validate_nodes cs (index + 1) (some_beacon || c.is_beacon) expected

  unfoldable pub validate : NetworkConfig → Result (Unit {0})
  unfolding validate_nodes
  validate c =
      if c.genesis == ""
      then err (message "no genesis given")
      else bind_result
          (wrapping "couldn't get network ID from genesis" (network_id_from_genesis c.genesis))
          λ expected. bind_result (validate_nodes c.node_configs 0 false expected) λ some_beacon.
            if is_empty c.node_configs || some_beacon
            then ok tt
            else err (message "beacon nodes not given")
