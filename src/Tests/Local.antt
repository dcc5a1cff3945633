-- ===== src/Tests/Local.antt =====
-- The package `local` in the small world.
use Prim.Native.String.{len}
use package.text.Mathlib.TextPositions.{len-append}
use cnr_sandbox.Base.{
  arith, ℕ, zero, suc, String, Bool, true, false, some, List, [], ◌∷◌, ◌++◌, ◌≡◌, refl, ap, sym,
  ◌∙◌, ◌==◌, ◌⊎◌, if◌then◌else◌, first_some, All,
}
use cnr_sandbox.Base.Dict.{lookup, insert, NodupKeys}
use cnr_sandbox.Base.Exec.{Error, ok, err, Fails, external, wrap, err_stopped, node_not_found}
use cnr_sandbox.Config.{text, NodeConfig, NetworkConfig, RestartOptions}
use cnr_sandbox.Config.Validate.{validate_node, validate_config_file}
use mathlib.Core.List.{Perm}
use cnr_sandbox.Local.Network.Restart.{restart_config}
use cnr_sandbox.Local.Network.Restart.Placement.{flag_after, restart_config_lem}
use cnr_sandbox.Local.Network.Load.Order.{start_order_lem}
use cnr_sandbox.Local.State.{LocalNode, System, entries}
use cnr_sandbox.Local.Network.Names.{set_node_name, default_name}
use cnr_sandbox.Local.Network.Names.Fresh.{PrintsApart, IsFirstFree, set_node_name_default}
use cnr_sandbox.Local.Network.Add.{add_node}
use cnr_sandbox.Local.Network.Add.Outcome.{IsPrepared, add_node_outcome, add_node_keeps_running}
use cnr_sandbox.Local.Network.Remove.{stop, stop_network}
use cnr_sandbox.Local.Network.Remove.Stopping.{halt_all, stop_lem}
use cnr_sandbox.Local.Network.Closed.{IsClosed, stop_network-IsClosed, stop_network_lem}
use cnr_sandbox.Local.Network.Phases.{add, pause, resume, perform, run}
use cnr_sandbox.Local.Network.Load.{load_config, start_order}
use cnr_sandbox.Local.Network.Load.Failure.{load_config_failed}
use cnr_sandbox.Tests.Surroundings.{
  runner, empty_network, fresh, two, tally, world, node_config, network_config,
}

pub two-NodupKeys : NodupKeys two.net.nodes
unfolding lookup
two-NodupKeys = (refl, (refl, tt))

len-tally : (n : ℕ) → len (tally n) ≡ n
len-tally zero = refl
len-tally (suc n) = ground (arith, len-append "|" (tally n), len-tally n)

tally_apart : PrintsApart world
tally_apart a b e = sym (len-tally a) ∙ ap len e ∙ len-tally b

set_node_name_default_example :
    (r : ℕ) × (set_node_name world node_config two ≡ (
      ok (record node_config { name = default_name world r }),
      record two { net = record empty_network { nodes = two.net.nodes; next_node_suffix = r } },
    ))
    × IsFirstFree world 0 two.net.nodes r
set_node_name_default_example =
    set_node_name_default world tally_apart node_config two refl (omega arith)

abbrev named : NodeConfig
named = record node_config { name = "node" }

add_node_outcome_example :
    (Fails (add_node world node_config two).0
      × ((add_node world node_config two).1.net.nodes ≡ two.net.nodes))
    ⊎ ((node : LocalNode world) × (was_paused : Bool) × IsPrepared world two.net node was_paused
        × ((add_node world node_config two).1.net.nodes ≡ insert node.name node two.net.nodes))
add_node_outcome_example = add_node_outcome world node_config two

add_node_keeps_running_example : lookup "node" (add_node world named two).1.net.nodes ≡ some runner
add_node_keeps_running_example =
    add_node_keeps_running world named two "node" runner (unfold lookup in refl) refl

stop_lem_example :
    ((stop world two).1.net.nodes ≡ [])
    × ((stop world two).1.world ≡ halt_all world two.net.nodes 0)
stop_lem_example = stop_lem world two two-NodupKeys

stop_network-IsClosed_example : IsClosed world (stop_network world two).1
stop_network-IsClosed_example = stop_network-IsClosed world two two-NodupKeys refl

abbrev stopped : System world
stopped = (stop_network world two).1

abbrev options : RestartOptions
options = record {
  binary_path = "new";
  plugin_dir = "";
  track_subnets = "subnet";
  chain_configs = ("C", "chain") ∷ [];
  upgrade_configs = [];
  subnet_configs = [];
}

stop_network_lem_example :
    (perform world (resume "node") (run world (pause "node" ∷ add named ∷ []) stopped)
      ≡ (err (node_not_found "node"), stopped))
    × (stop_network world (run world (pause "node" ∷ add named ∷ []) stopped)
        ≡ (err err_stopped, stopped))
stop_network_lem_example =
    stop_network_lem world (pause "node" ∷ add named ∷ []) (resume "node") two two-NodupKeys refl

restart_config_lem_example :
    (c : NodeConfig) × (restart_config world options runner runner.config ≡ (ok tt, c))
    × (c.name ≡ "")
    × (c.binary_path ≡ (if "new" == "" then "node" else "new"))
    × ((k : String)
        → (lookup k (entries c.flags) ≡ flag_after world options runner [] k)
          × (lookup k (entries c.chain_config_files)
              ≡ first_some (lookup k options.chain_configs) (lookup k []))
          × (lookup k (entries c.upgrade_config_files) ≡ first_some (lookup k []) (lookup k []))
          × (lookup k (entries c.subnet_config_files) ≡ first_some (lookup k []) (lookup k [])))
restart_config_lem_example = restart_config_lem world options runner [] [] [] [] refl refl refl refl

-- No node can be started under this name.
abbrev bad_config : NetworkConfig
bad_config = record network_config {
  node_configs = record node_config { name = "bad" } ∷ named ∷ [];
}

abbrev failure : Error
failure =
    wrap "error adding node bad" (wrap "couldn't create new node process" (external "no process"))

load_fails : (load_config world bad_config fresh).0 ≡ err failure
unfolding load_config validate_node validate_config_file
load_fails = refl

load_config_failed_example : (load_config world bad_config fresh).1.net.nodes ≡ []
load_config_failed_example = load_config_failed world bad_config fresh failure refl load_fails

abbrev plain : NodeConfig
plain = record named { is_beacon = false }

start_order_lem_example :
    Perm (start_order (plain ∷ node_config ∷ [])) (plain ∷ node_config ∷ [])
    × ((beacons : List NodeConfig) × (others : List NodeConfig) × (start_order
            (plain ∷ node_config ∷ [])
          ≡ beacons ++ others)
        × All (λ c. c.is_beacon ≡ true) beacons
        × All (λ c. c.is_beacon ≡ false) others)
start_order_lem_example = start_order_lem (plain ∷ node_config ∷ [])
