-- ===== src/Local/Network/Load.antt =====
-- `loadConfig` and `AddNode` of local/network.go.
pub mod Order
pub mod Failure
use cnr_sandbox.Base.{◌<>◌, Bool, true, false, not, some, List, [], ◌∷◌, ◌++◌, if◌then◌else◌}
use cnr_sandbox.Base.Exec.{
  Result, ok, err, crash, Exec, pure, fail, panic, lift, ◌>>=◌, ◌>>◌, wrapping, err_stopped, wrap,
}
use cnr_sandbox.Config.{NodeConfig, NetworkConfig}
use cnr_sandbox.Config.Validate.{validate, network_id_from_genesis}
use cnr_sandbox.World.{World}
use cnr_sandbox.Local.State.{LocalNode, LocalNetwork, System, entries}
use cnr_sandbox.Local.Network.Add.{add_node}
use cnr_sandbox.Local.Network.Remove.{stop}

-- The configs that are beacons (or that are not), in their order.
unfoldable pub select : Bool → List NodeConfig → List NodeConfig
select beacon [] = []
select beacon (c ∷ cs) =
    let rest = select beacon cs in
    if (if beacon then c.is_beacon else not c.is_beacon) then c ∷ rest else rest

-- Beacons first.
unfoldable pub start_order : List NodeConfig → List NodeConfig
unfolding select
start_order cs = select true cs ++ select false cs

module _ (W : World) where
  unfoldable pub add_node_checked : NodeConfig → Exec (System W) (LocalNode W)
  unfolding add_node
  add_node_checked c s = if s.net.stop_called then fail err_stopped s else add_node W c s

  unfoldable pub save_defaults : NetworkConfig → LocalNetwork W → LocalNetwork W
  save_defaults c ln = record ln {
    flags = c.flags;
    binary_path = c.binary_path;
    chain_config_files = some (entries c.chain_config_files);
    upgrade_config_files = some (entries c.upgrade_config_files);
    subnet_config_files = some (entries c.subnet_config_files);
  }

  -- A failure removes the nodes that were added, and only its own error is returned.
  unfoldable pub after_add :
      NodeConfig → Result (LocalNode W) → Exec (System W) (Unit {0}) → Exec (System W) (Unit {0})
  unfolding stop
  after_add c (ok node) rest s = rest s
  after_add c (err e) rest s = (err (wrap ("error adding node " <> c.name) e), (stop W s).1)
  after_add c (crash m) rest s = panic m s

  unfoldable pub add_nodes : List NodeConfig → Exec (System W) (Unit {0})
  unfolding add_node after_add
  add_nodes [] s = pure tt s
  add_nodes (c ∷ cs) s = let (r, t) = add_node W c s in after_add c r (add_nodes cs) t

  unfoldable pub modify_net : (LocalNetwork W → LocalNetwork W) → Exec (System W) (Unit {0})
  modify_net f s = pure tt (record s { net = f s.net })

  unfoldable pub load_config : NetworkConfig → Exec (System W) (Unit {0})
  unfolding modify_net validate network_id_from_genesis save_defaults add_nodes start_order
  load_config c = do
    lift (wrapping "config failed validation" (validate W c))
    modify_net (λ ln. record ln { genesis = c.genesis })
    id ←
        lift (wrapping "couldn't get network ID from genesis" (network_id_from_genesis W c.genesis))
    modify_net (λ ln. save_defaults c (record ln { network_id = id }))
    add_nodes (start_order c.node_configs)
