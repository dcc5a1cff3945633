-- ===== src/Local/Chain/Validators.antt =====
-- Transactions for validators and subnets in local/blockchain.go: `addPrimaryValidators`,
-- `addSubnetValidators`, `createSubnets`, `newWallet`.
use cnr_sandbox.Base.{
  ℕ, zero, suc, ◌+◌, ◌*◌, ◌%◌, ◌^◌, String, Option, none, some, List, [], ◌∷◌, ◌==◌, if◌then◌else◌,
  first_some, or_default,
}
use cnr_sandbox.Base.Dict.{lookup}
use cnr_sandbox.Base.Exec.{Exec, pure, fail, lift, get, ◌>>=◌, ◌>>◌, for_each, wrap_exec}
use cnr_sandbox.Config.Specs.{SubnetSpec}
use cnr_sandbox.World.{World}
use cnr_sandbox.Local.State.{LocalNode, System, outside}
use cnr_sandbox.Local.Ledger.{Validator, SubnetValidator, Ledger}
use cnr_sandbox.Local.Chain.Nodes.{contains, validator_ids, for_specs}
use cnr_sandbox.Local.Chain.Waiting.{not_in_network}

-- `validationStartOffset` and `validationDuration` in seconds, `subnetValidatorsWeight`.
abbrev start_offset : ℕ
start_offset = 20

abbrev validation_duration : ℕ
validation_duration = 365 * 24 * 3600

abbrev subnet_weight : ℕ
subnet_weight = 1000

abbrev pub delegation_fee : ℕ
delegation_fee = 10 * 10000

-- `uint64(time.Time{}.Unix())`, the end of a node without an entry in the map.
abbrev zero_time : ℕ
zero_time = 18446744011573954816

-- The last validator with this ID, as in the map made of them.
unfoldable last_end : String → List Validator → Option ℕ
last_end id [] = none
last_end id (v ∷ vs) =
    first_some (last_end id vs) (if v.node_id == id then some v.end_time else none)

unfoldable end_of : String → List Validator → ℕ
unfolding last_end
end_of id vs = or_default zero_time (last_end id vs)

module _ (W : World) (L : Ledger W) where
  preload : String → List String → Exec W.State (List (String × L.Tx))
  preload uri [] = pure []
  preload uri (id ∷ ids) = do
    bytes ← L.get_tx uri id
    tx ← lift (L.parse_tx bytes)
    rest ← preload uri ids
    pure ((id, tx) ∷ rest)

  unfoldable pub new_wallet : String → List String → Exec W.State L.Wallet
  unfolding preload
  new_wallet uri ids = do
    chain ← L.fetch_state uri
    txs ← preload uri ids
    pure (L.make_wallet uri chain txs)

  abbrev clock : Exec W.State ℕ
  clock w = let (t, u) = L.now w in pure t u

  -- The transaction for a node that is no primary validator yet.
  unfoldable add_primary_validator : L.Wallet → LocalNode W → Exec W.State (Unit {0})
  add_primary_validator wallet node = do
    bytes ← lift (W.decode_base64 node.config.staking_signing_key)
    key ← lift (L.secret_key_of_bytes bytes)
    t ← clock
    u ← clock
    let validator : SubnetValidator = record {
      node_id = node.node_id;
      start = (t + start_offset) % 2 ^ 64;
      end_time = (u + validation_duration) % 2 ^ 64;
      weight = L.min_validator_stake;
      subnet = L.primary_network;
    }
    let proof = L.proof_of_possession key
    wrap_exec "P-Wallet Tx Error IssueAddPermissionlessValidatorTx"
        (L.issue_add_permissionless_validator wallet validator proof delegation_fee)
    pure tt

  add_missing_primary : L.Wallet → List String → (String × LocalNode W) → Exec W.State (Unit {0})
  unfolding contains add_primary_validator
  add_missing_primary wallet ids (name, node) =
      if contains node.node_id ids then pure tt else add_primary_validator wallet node

  unfoldable pub add_primary_validators : String → L.Wallet → Exec (System W) (Unit {0})
  unfolding validator_ids add_missing_primary for_each
  add_primary_validators uri wallet = do
    vs ← outside W (L.get_current_validators uri L.primary_network)
    s ← get
    outside W (for_each s.net.nodes (add_missing_primary wallet (validator_ids vs)))

  -- As many subnets as asked for, one after the other.
  unfoldable pub issue_subnets : ℕ → L.Wallet → Exec W.State (List String)
  issue_subnets zero wallet = pure []
  issue_subnets (suc n) wallet = do
    id ← wrap_exec "P-Wallet Tx Error IssueCreateSubnetTx" (L.issue_create_subnet wallet)
    ids ← issue_subnets n wallet
    pure (id ∷ ids)

  unfoldable add_subnet_validator :
      L.Wallet → String → List Validator → LocalNode W → Exec W.State (Unit {0})
  unfolding end_of
  add_subnet_validator wallet id primary node = do
    t ← clock
    let validator : SubnetValidator = record {
      node_id = node.node_id;
      start = (t + start_offset) % 2 ^ 64;
      end_time = end_of node.node_id primary;
      weight = subnet_weight;
      subnet = id;
    }
    wrap_exec "P-Wallet Tx Error IssueAddSubnetValidatorTx"
        (L.issue_add_subnet_validator wallet validator)
    pure tt

  add_participant :
      L.Wallet
      → String
      → List Validator
      → List String
      → String
      → Option (LocalNode W)
      → Exec W.State (Unit {0})
  unfolding contains add_subnet_validator not_in_network
  add_participant wallet id primary current name none = fail (not_in_network name)
  add_participant wallet id primary current name (some node) =
      if contains node.node_id current then pure tt else add_subnet_validator wallet id primary node

  -- The participants of one subnet; those that validate it already are left out.
  unfoldable add_subnet_participants :
      String → L.Wallet → String → SubnetSpec → Exec (System W) (Unit {0})
  unfolding add_participant validator_ids for_each lookup
  add_subnet_participants uri wallet id spec = do
    primary ← outside W (L.get_current_validators uri L.primary_network)
    vs ← outside W (L.get_current_validators uri id)
    s ← get
    outside W (
        for_each spec.participants λ name.
          add_participant wallet id primary (validator_ids vs) name (lookup name s.net.nodes))

  unfoldable pub add_subnet_validators :
      String → L.Wallet → List String → List SubnetSpec → Exec (System W) (Unit {0})
  unfolding add_subnet_participants for_specs
  add_subnet_validators uri wallet = for_specs (add_subnet_participants uri wallet)
