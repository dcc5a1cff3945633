-- ===== src/Local/Chain/Nodes.antt =====
-- Which nodes local/blockchain.go works on: `getSomeNode`, `getClientURI`,
-- `getSubnetValidatorsNodenames`, and how the participants of new subnets are completed.
use cnr_sandbox.Base.{
  String, ◌<>◌, Option, none, some, List, [], ◌∷◌, ◌++◌, ◌==◌, ◌=?◌, if◌then◌else◌, is_empty,
  length, Bool, false, ◌||◌,
}
use cnr_sandbox.Base.Dict.{Dict, lookup}
use cnr_sandbox.Base.Exec.{
  Result, ok, err, crash, Exec, pure, panic, lift, get, ◌>>=◌, ◌>>◌, for_each, message,
}
use cnr_sandbox.Config.{NodeConfig}
use cnr_sandbox.Config.Specs.{SubnetSpec}
use cnr_sandbox.World.{World}
use cnr_sandbox.Local.State.{LocalNode, System, outside, get_url}
use cnr_sandbox.Local.Ledger.{Ledger, Validator}
use cnr_sandbox.Local.Network.Add.{add_node}

unfoldable pub contains : String → List String → Bool
contains x [] = false
contains x (y ∷ ys) = y == x || contains x ys

-- `set.Add`
unfoldable pub add_member : String → List String → List String
unfolding contains
add_member x xs = if contains x xs then xs else x ∷ xs

-- `node.Config{Name: name}`
unfoldable bare_config : String → NodeConfig
bare_config name = record {
  name = name;
  is_beacon = false;
  staking_key = "";
  staking_cert = "";
  staking_signing_key = "";
  config_file = "";
  chain_config_files = none;
  upgrade_config_files = none;
  subnet_config_files = none;
  flags = none;
  binary_path = "";
  redirect_stdout = false;
  redirect_stderr = false;
}

-- A spec without participants gets all nodes.
unfoldable with_participants : List String → SubnetSpec → SubnetSpec
with_participants all spec =
    if is_empty spec.participants then record spec { participants = all } else spec

unfoldable pub all_with_participants : List String → List SubnetSpec → List SubnetSpec
unfolding with_participants
all_with_participants all [] = []
all_with_participants all (spec ∷ specs) =
    with_participants all spec ∷ all_with_participants all specs

unfoldable pub validator_ids : List Validator → List String
validator_ids [] = []
validator_ids (v ∷ vs) = v.node_id ∷ validator_ids vs

-- `for i, id := range subnetIDs { body(id, subnetSpecs[i]) }`
unfoldable pub for_specs :
    {S : Type 0}
    → (String → SubnetSpec → Exec S (Unit {0}))
    → List String
    → List SubnetSpec
    → Exec S (Unit {0})
for_specs body [] specs = pure tt
for_specs body (id ∷ ids) [] = panic "index out of range"
for_specs body (id ∷ ids) (spec ∷ specs) = body id spec >> for_specs body ids specs

module _ (W : World) where
  -- The first node of a range that is not paused.
  unfoldable pub get_some_node : Dict (LocalNode W) → Option (LocalNode W)
  get_some_node [] = none
  get_some_node ((name, node) ∷ nodes) =
      let rest = get_some_node nodes in if node.paused then rest else some node

  unfoldable pub node_uri : LocalNode W → String
  unfolding get_url
  node_uri node = "http://" <> get_url W node <> ":" <> W.print_nat node.api_port

  -- A method of a nil node panics.
  uri_of : Option (LocalNode W) → Result String
  unfolding node_uri
  uri_of none = crash "nil node"
  uri_of (some node) = ok (node_uri node)

  unfoldable pub get_client_uri : Exec (System W) String
  unfolding get_some_node uri_of
  get_client_uri s = (uri_of (get_some_node s.net.nodes), s)

  -- The nodes with this ID.
  unfoldable names_with_id : String → Dict (LocalNode W) → List String
  names_with_id id [] = []
  names_with_id id ((name, node) ∷ nodes) =
      let rest = names_with_id id nodes in if id == node.node_id then name ∷ rest else rest

  unfoldable names_with_ids : List String → Dict (LocalNode W) → List String
  unfolding names_with_id
  names_with_ids [] nodes = []
  names_with_ids (id ∷ ids) nodes = names_with_id id nodes ++ names_with_ids ids nodes

  -- Participants that are not there yet become nodes.
  ensure_node : String → Option (LocalNode W) → Exec (System W) (Unit {0})
  unfolding add_node bare_config
  ensure_node name (some node) = pure tt
  ensure_node name none = do add_node W (bare_config name); pure tt

  unfoldable ensure_participant : String → Exec (System W) (Unit {0})
  unfolding ensure_node lookup
  ensure_participant name s = ensure_node name (lookup name s.net.nodes) s

  unfoldable pub add_participants : List SubnetSpec → Exec (System W) (Unit {0})
  unfolding ensure_participant for_each
  add_participants specs = for_each specs λ spec. for_each spec.participants ensure_participant

module _ (W : World) (L : Ledger W) where
  -- The validators as nodes; all of them must be in the network.
  names_checked : List String → List String → Result (List String)
  names_checked ids names =
      if length names =? length ids
      then ok names
      else err (message "not all validators are present in network")

  unfoldable pub get_subnet_validators_nodenames : String → Exec (System W) (List String)
  unfolding get_client_uri names_with_ids names_checked validator_ids
  get_subnet_validators_nodenames subnet = do
    uri ← get_client_uri W
    vs ← outside W (L.get_current_validators uri subnet)
    s ← get
    let ids = validator_ids vs
    lift (names_checked ids (names_with_ids W ids s.net.nodes))
