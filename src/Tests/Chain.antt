-- ===== src/Tests/Chain.antt =====
-- Subnets, chains, health checks and runs of operations in the small world.
use cnr_sandbox.Local.Chain.Waiting.{wait_primary_validators}
use cnr_sandbox.Local.Chain.Waiting.Reached.{wait_primary_validators_lem}
use cnr_sandbox.Base.{ℕ, String, true, false, some, List, [], ◌∷◌, ◌++◌, ◌≡◌, ◌≢◌, refl, ◌||◌}
use cnr_sandbox.Base.Dict.{lookup, keys, NodupKeys}
use cnr_sandbox.Base.Exec.{ok, crash}
use cnr_sandbox.Config.Specs.{SubnetSpec, BlockchainSpec}
use cnr_sandbox.Local.State.{LocalNode, System}
use cnr_sandbox.Local.Ledger.{Validator, unwell, looked, expired}
use cnr_sandbox.Local.Health.{healthy, start_check, run_check, wait_result}
use cnr_sandbox.Local.Health.Found.{was_well, healthy_found}
use cnr_sandbox.Local.Health.Ending.{last_round, health_check_ends}
use cnr_sandbox.Local.Network.Phases.{
  add, remove, pause, resume, restart, Operation, Runs, view, run,
}
use cnr_sandbox.Local.Network.Phases.Refines.{run_refines}
use cnr_sandbox.Local.Chain.Nodes.{contains, validator_ids}
use cnr_sandbox.Local.Chain.Files.{set_subnet_config_files, set_blockchain_config_files}
use cnr_sandbox.Local.Chain.Files.Written.{subnet_file, written_config, set_subnet_config_files_lem}
use cnr_sandbox.Local.Chain.Files.Restarted.{Spares, set_blockchain_config_files_lem}
use cnr_sandbox.Local.Chain.Tracking.{texts, tracked_before, tracked_flag, no_options}
use cnr_sandbox.Local.Chain.Tracking.Sets.{tracked_roundtrip}
use cnr_sandbox.Local.Chain.Txs.{BlockchainInfo}
use cnr_sandbox.Local.Chain.Install.{create_subnets, install_custom_chains}
use cnr_sandbox.Local.Chain.Blockchains.{create_blockchains}
use cnr_sandbox.Local.Chain.Blockchains.Paused.{create-AllPaused}
use cnr_sandbox.Tests.Surroundings.{world, node_config, sleeper, empty_network}
use cnr_sandbox.Tests.Commas.{plain}
use cnr_sandbox.Tests.Ledger.{ledger, id_text, site, subnet_spec, chain_spec, ledger-SplitsAtCommas}

abbrev specs_of_site : List SubnetSpec
specs_of_site = subnet_spec ∷ []

abbrev created : System world
created = (create_subnets world ledger specs_of_site site).1

abbrev infos : List BlockchainInfo
infos = record { chain_name = "vm"; vm_id = "vm"; subnet_id = "subnet"; blockchain_id = "vm" } ∷ []

abbrev installed : System world
installed = (install_custom_chains world ledger (chain_spec ∷ []) site).1

abbrev asleep : System world
asleep = record { net = record empty_network { nodes = ("node|", sleeper) ∷ [] }; world = 0 }

create-AllPaused_example :
    (create_subnets world ledger specs_of_site asleep ≡ (crash "nil node", asleep))
    × (create_blockchains world ledger (chain_spec ∷ []) asleep ≡ (crash "nil node", asleep))
create-AllPaused_example =
    create-AllPaused world ledger specs_of_site (chain_spec ∷ []) asleep (refl, tt)

abbrev waited : System world
waited = (wait_primary_validators world ledger "uri" site).1

waits : wait_primary_validators world ledger "uri" site ≡ (ok tt, waited)
unfolding wait_primary_validators
waits = refl

wait_primary_validators_lem_example :
    (w : ℕ) × (vs : List Validator) × (ledger.get_current_validators "uri" "" w
      ≡ (ok vs, waited.world))
    × ((name : String) (node : LocalNode world)
        → lookup name waited.net.nodes ≡ some node
        → contains node.node_id (validator_ids vs) ≡ true)
wait_primary_validators_lem_example =
    wait_primary_validators_lem world ledger "uri" site waited waits

abbrev configured : System world
configured = (set_subnet_config_files world ledger ("subnet" ∷ []) specs_of_site site).1

configures :
    set_subnet_config_files world ledger ("subnet" ∷ []) specs_of_site site ≡ (ok tt, configured)
unfolding set_subnet_config_files
configures = refl

set_subnet_config_files_lem_example :
    (subnet_file world "1111110" (lookup "node" configured.net.nodes)
      ≡ written_config ledger.id_text "node" "1111110"
          ("subnet" ∷ [])
          specs_of_site
          (subnet_file world "1111110" (lookup "node" site.net.nodes)))
    × (configured.world ≡ 0)
set_subnet_config_files_lem_example =
    set_subnet_config_files_lem world ledger ("subnet" ∷ []) specs_of_site "node" "1111110" site
      configured configures

abbrev chain_of_subnet : BlockchainSpec
chain_of_subnet = record chain_spec { subnet_id = some "1111110" }

abbrev rewritten : System world
rewritten =
    (set_blockchain_config_files world ledger (chain_of_subnet ∷ []) ("tx" ∷ []) ("subnet" ∷ [])
      specs_of_site [] site).1

rewrites :
    set_blockchain_config_files world ledger
      (chain_of_subnet ∷ [])
      ("tx" ∷ [])
      ("subnet" ∷ [])
      specs_of_site
      []
      site
    ≡ (ok ("node" ∷ []), rewritten)
unfolding set_blockchain_config_files id_text
rewrites = refl

set_blockchain_config_files_lem_example : Spares world [] ("node" ∷ []) site rewritten
set_blockchain_config_files_lem_example =
    set_blockchain_config_files_lem world ledger (chain_of_subnet ∷ []) ("tx" ∷ []) ("subnet" ∷ [])
      specs_of_site [] ("node" ∷ []) site rewritten rewrites

tracked_roundtrip_example :
    contains "1110" (tracked_before world ledger (tracked_flag world ledger "a,b" ("new" ∷ []))) ≡ (
      contains "1110" (texts ledger.id_text ("new" ∷ []))
      || contains "1110" (tracked_before world ledger "a,b"))
tracked_roundtrip_example =
    tracked_roundtrip ledger plain ledger-SplitsAtCommas "a,b" "new" [] "1110"

abbrev checked : System world
checked = (healthy world ledger site).1

checks : healthy world ledger site ≡ (ok tt, checked)
unfolding healthy
checks = refl

healthy_found_example :
    (false ≡ false)
    × ((name : String) (node : LocalNode world)
        → lookup name site.net.nodes ≡ some node
        → node.paused ≡ false
        → was_well name (ledger.schedule 0).0 ≡ true)
healthy_found_example = healthy_found world ledger site checked checks

site-NodupKeys : NodupKeys site.net.nodes
unfolding lookup
site-NodupKeys = (refl, (refl, tt))

health_check_ends_example :
    wait_result (
      run_check
        ((looked "node" unwell ∷ []) ++ (expired ∷ last_round (λ n. unwell) (keys site.net.nodes)))
        (start_check world site.net.nodes))
    ≢ crash "goroutines still run"
health_check_ends_example =
    health_check_ends world site.net.nodes (looked "node" unwell ∷ []) (λ n. unwell)
      "goroutines still run" site-NodupKeys

abbrev operations : List Operation
operations =
    pause "node" ∷ resume "node|" ∷ restart no_options "node" ∷ remove "node" ∷ add node_config ∷ []

run_refines_example : Runs operations (view world site) (view world (run world operations site))
run_refines_example = run_refines world operations site
