-- ===== src/Config/Specs.antt =====
-- network/network.go: what is asked for about a chain or a subnet, and `VMID` of utils/utils.go.
-- A nil slice is `none`.
use Prim.Native.String.{String, len}
use mathlib.Core.List.{List}
use mathlib.Core.Option.{Option}
use cnr_sandbox.Base.{ltb, if◌then◌else◌}
use cnr_sandbox.Base.Dict.{Dict}
use cnr_sandbox.Base.Exec.{Result, ok, err, message}

pub record SubnetSpec : Type 0 where
  pub participants : List String
  pub subnet_config : Option String

pub record BlockchainSpec : Type 0 where
  pub vm_name : String
  pub genesis : String
  pub subnet_id : Option String
  pub subnet_spec : Option SubnetSpec
  pub chain_config : Option String
  pub network_upgrade : Option String
  pub blockchain_alias : String
  pub per_node_chain_config : Dict String

-- `padded_id` is `ids.ToID` of the name with zeros up to 32 bytes.
unfoldable pub vm_id : (String → String) → String → Result String
vm_id padded_id name =
    if ltb 32 (len name) then err (message "VM name must be <= 32 bytes") else ok (padded_id name)
