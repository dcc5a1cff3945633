-- ===== src/Local/Network/Remove.antt =====
-- `removeNode`, `pauseNode`, `stop` and the public methods over them, in local/network.go.
pub mod Effects
pub mod Stopping
use cnr_sandbox.Base.{zero, String, true, Option, none, some, List, [], ◌∷◌, if◌then◌else◌, ℤ, pos}
use cnr_sandbox.Base.Dict.{Dict, lookup, insert, erase, keys}
use cnr_sandbox.Base.Exec.{
  Error, Result, ok, err, Exec, pure, fail, ◌>>◌, node_not_found, node_exited, already_paused,
  err_stopped, err_node_not_found,
}
use cnr_sandbox.World.{World}
use cnr_sandbox.Local.State.{LocalNode, LocalNetwork, System}

module _ (W : World) where
  -- `exitCode != 0`
  exit_result : String → ℤ → Result (Unit {0})
  exit_result name (pos zero) = ok tt
  exit_result name code = err (node_exited name code)

  -- The client is closed before the process is stopped.
  unfoldable stop_node_process : String → LocalNode W → Exec (System W) (Unit {0})
  unfolding exit_result
  stop_node_process name node s =
      let (code, w) = W.stop_process node.process (W.close_client node.api_port s.world) in
      (exit_result name code, record s { world = w })

  -- Without the node, in the map and among the beacons.
  drop_node : String → LocalNode W → LocalNetwork W → LocalNetwork W
  unfolding erase
  drop_node name node ln = record ln {
    nodes = erase name ln.nodes;
    bootstraps = W.remove_beacon node.node_id ln.bootstraps;
  }

  remove_found : String → Option (LocalNode W) → Exec (System W) (Unit {0})
  unfolding stop_node_process drop_node
  remove_found name none s = fail (node_not_found name) s
  remove_found name (some node) s =
      let t : System W = record s { net = drop_node name node s.net } in
      if node.paused then pure tt t else stop_node_process name node t

  unfoldable pub remove_node : String → Exec (System W) (Unit {0})
  unfolding remove_found lookup
  remove_node name s = remove_found name (lookup name s.net.nodes) s

  set_paused : String → LocalNode W → Exec (System W) (Unit {0})
  unfolding insert
  set_paused name node s = pure tt (record s {
    net = record s.net { nodes = insert name (record node { paused = true }) s.net.nodes };
  })

  pause_found : String → Option (LocalNode W) → Exec (System W) (Unit {0})
  unfolding stop_node_process set_paused
  pause_found name none = fail (node_not_found name)
  pause_found name (some node) =
      if node.paused
      then fail already_paused
      else (stop_node_process name node >> set_paused name node)

  unfoldable pub pause_node : String → Exec (System W) (Unit {0})
  unfolding pause_found lookup
  pause_node name s = pause_found name (lookup name s.net.nodes) s

  -- The loop of `stop`: every node is removed, and the errors are kept.
  note_error : Result (Unit {0}) → List Error → List Error
  note_error (err e) errors = e ∷ errors
  note_error r errors = errors

  unfoldable pub stop_nodes : List String → System W → List Error × System W
  unfolding remove_node note_error
  stop_nodes [] s = ([], s)
  stop_nodes (name ∷ names) s =
      let (r, t) = remove_node name s in
      let (errors, u) = stop_nodes names t in (note_error r errors, u)

  error_result : Option Error → Result (Unit {0})
  error_result none = ok tt
  error_result (some e) = err e

  unfoldable pub stop : Exec (System W) (Unit {0})
  unfolding stop_nodes error_result
  stop s = let (errors, t) = stop_nodes (keys s.net.nodes) s in (error_result (W.joined errors), t)

  -- `Stop`: `stopOnce` runs once, and later calls have the error that they started with.
  unfoldable pub stop_network : Exec (System W) (Unit {0})
  unfolding stop
  stop_network s =
      if s.net.stop_called
      then fail err_stopped s
      else stop (record s { net = record s.net { stop_called = true } })

  unfoldable pub unless_stopped : {A : Type 0} → Exec (System W) A → Exec (System W) A
  unless_stopped m s = if s.net.stop_called then fail err_stopped s else m s

  unfoldable pub remove_node_checked : String → Exec (System W) (Unit {0})
  unfolding unless_stopped remove_node
  remove_node_checked name = unless_stopped (remove_node name)

  unfoldable pub pause_node_checked : String → Exec (System W) (Unit {0})
  unfolding unless_stopped pause_node
  pause_node_checked name = unless_stopped (pause_node name)

  found_node : Option (LocalNode W) → Result (LocalNode W)
  found_node none = err err_node_not_found
  found_node (some node) = ok node

  unfoldable pub get_node : String → Exec (System W) (LocalNode W)
  unfolding unless_stopped found_node lookup
  get_node name = unless_stopped (λ s. (found_node (lookup name s.net.nodes), s))

  unfoldable get_node_names : Exec (System W) (List String)
  unfolding unless_stopped
  get_node_names = unless_stopped (λ s. (ok (keys s.net.nodes), s))

  unfoldable pub get_all_nodes : Exec (System W) (Dict (LocalNode W))
  unfolding unless_stopped
  get_all_nodes = unless_stopped (λ s. (ok s.net.nodes, s))
