-- ===== src/Local/Chain/Files.antt =====
-- `setSubnetConfigFiles` and `setBlockchainConfigFiles` of local/blockchain.go: what is written to
-- the configs of the nodes that take part.
pub mod Written
pub mod Restarted
use cnr_sandbox.Base.{
  String, Option, none, some, List, [], ◌∷◌, ◌==◌, if◌then◌else◌, is_empty, has_value, Bool, not,
  ◌||◌, first_some,
}
use cnr_sandbox.Base.Dict.{Dict, lookup, insert}
use cnr_sandbox.Base.Exec.{
  Result, ok, crash, Exec, pure, fail, panic, lift, get, ◌>>=◌, ◌>>◌, for_each, bind_result,
}
use cnr_sandbox.Config.{NodeConfig}
use cnr_sandbox.Config.Specs.{SubnetSpec, BlockchainSpec}
use cnr_sandbox.World.{World}
use cnr_sandbox.Local.State.{LocalNode, System}
use cnr_sandbox.Local.Ledger.{Ledger}
use cnr_sandbox.Local.Chain.Nodes.{add_member, for_specs, get_subnet_validators_nodenames}
use cnr_sandbox.Local.Chain.Waiting.{not_in_network}

-- `m[k] = v`, where `m` may be nil.
unfoldable pub put {ℓ} : {V : Type ℓ} → String → V → Option (Dict V) → Result (Option (Dict V))
unfolding insert
put k v none = crash "assignment to entry in nil map"
put k v (some m) = ok (some (insert k v m))

unfoldable pub put_subnet_config : String → String → NodeConfig → Result NodeConfig
unfolding put
put_subnet_config k v c =
    bind_result (put k v c.subnet_config_files) λ m. ok (record c { subnet_config_files = m })

unfoldable pub put_chain_config : String → String → NodeConfig → Result NodeConfig
unfolding put
put_chain_config k v c =
    bind_result (put k v c.chain_config_files) λ m. ok (record c { chain_config_files = m })

unfoldable pub put_upgrade_config : String → String → NodeConfig → Result NodeConfig
unfolding put
put_upgrade_config k v c =
    bind_result (put k v c.upgrade_config_files) λ m. ok (record c { upgrade_config_files = m })

-- The participants of a chain's subnet if it is new; the last match counts.
unfoldable pub new_participants :
    String → List String → List SubnetSpec → List String → Result (List String)
new_participants id [] specs found = ok found
new_participants id (new ∷ news) [] found =
    let rest = new_participants id news [] found in
    if id == new then crash "index out of range" else rest
new_participants id (new ∷ news) (spec ∷ specs) found =
    new_participants id news specs (if id == new then spec.participants else found)

-- The config of a node: its own, or that of the chain, which is empty where it is nil.
unfoldable pub config_for : BlockchainSpec → String → String
unfolding lookup
config_for spec name =
    elim (first_some (lookup name spec.per_node_chain_config) spec.chain_config) [
      | none ↦ ""
      | some body ↦ body
    ]

-- `*chainSpec.SubnetID`
abbrev pub text_of_id : Option String → Result String
text_of_id none = crash "nil subnet ID"
text_of_id (some id) = ok id

module _ (W : World) where
  unfoldable pub change_config :
      (NodeConfig → Result NodeConfig) → String → Option (LocalNode W) → Exec (System W) (Unit {0})
  unfolding not_in_network insert
  change_config change name none s = fail (not_in_network name) s
  change_config change name (some node) s =
      (do
        c ← lift (change node.config)
        (λ t. pure tt (record t {
          net = record t.net { nodes = insert name (record node { config = c }) t.net.nodes };
        })))
        s

  -- A write to the config of a node that must be there.
  unfoldable pub write_config :
      (NodeConfig → Result NodeConfig) → String → Exec (System W) (Unit {0})
  unfolding change_config lookup
  write_config change name s = change_config change name (lookup name s.net.nodes) s

module _ (W : World) (L : Ledger W) where
  set_subnet_config : String → SubnetSpec → Exec (System W) (Unit {0})
  unfolding write_config put_subnet_config for_each
  set_subnet_config id spec = elim spec.subnet_config [
    | none ↦ pure tt
    | some body ↦
        for_each spec.participants (write_config W (put_subnet_config (L.id_text id) body))
  ]

  unfoldable pub set_subnet_config_files :
      List String → List SubnetSpec → Exec (System W) (Unit {0})
  unfolding set_subnet_config for_specs
  set_subnet_config_files = for_specs set_subnet_config

  unfoldable pub chain_participants : String → List String → Exec (System W) (List String)
  unfolding get_subnet_validators_nodenames
  chain_participants id found =
      if is_empty found then get_subnet_validators_nodenames W L id else pure found

  -- A write of a chain's file to every participant, which is then to be restarted.
  unfoldable pub write_to_all :
      (String → NodeConfig → Result NodeConfig)
      → List String
      → List String
      → Exec (System W) (List String)
  unfolding write_config add_member
  write_to_all change [] restart = pure restart
  write_to_all change (name ∷ names) restart =
      write_config W (change name) name >> write_to_all change names (add_member name restart)

  unfoldable pub set_upgrade_config :
      Option String → String → List String → List String → Exec (System W) (List String)
  unfolding put_upgrade_config write_to_all
  set_upgrade_config none chain_alias names restart = pure restart
  set_upgrade_config (some body) chain_alias names restart =
      write_to_all (λ name. put_upgrade_config chain_alias body) names restart

  unfoldable pub set_chain_config :
      BlockchainSpec → String → List String → List String → Exec (System W) (List String)
  unfolding put_chain_config config_for write_to_all set_upgrade_config
  set_chain_config spec chain_alias names restart = do
    some_restart ←
        (if has_value spec.chain_config || not (is_empty spec.per_node_chain_config)
          then write_to_all (λ name. put_chain_config chain_alias (config_for spec name)) names
              restart
          else pure restart)
    set_upgrade_config spec.network_upgrade chain_alias names some_restart

  unfoldable pub tx_alias : List L.Tx → Result String
  tx_alias [] = crash "index out of range"
  tx_alias (tx ∷ txs) = ok (L.id_text (L.tx_id tx))

  unfoldable pub tail : List L.Tx → List L.Tx
  tail [] = []
  tail (tx ∷ txs) = txs

  -- The names of the nodes whose configs were written to, in addition to `restart`.
  unfoldable pub set_blockchain_config_files :
      List BlockchainSpec
      → List L.Tx
      → List String
      → List SubnetSpec
      → List String
      → Exec (System W) (List String)
  unfolding new_participants chain_participants tx_alias set_chain_config tail
  set_blockchain_config_files [] txs ids specs restart = pure restart
  set_blockchain_config_files (chain ∷ chains) txs ids specs restart = do
    id ← lift (bind_result (text_of_id chain.subnet_id) L.id_of_text)
    found ← lift (new_participants id ids specs [])
    names ← chain_participants id found
    chain_alias ← lift (tx_alias txs)
    more ← set_chain_config chain chain_alias names restart
    set_blockchain_config_files chains (tail txs) ids specs more
