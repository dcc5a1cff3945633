-- ===== src/Local/Network/Closed.antt =====
-- `Stop` of local/network.go and every operation after it.
use cnr_sandbox.Base.{arith, String, true, false, ◌≡◌, refl, ◌∙◌, List, [], ◌∷◌}
use cnr_sandbox.Base.Dict.{NodupKeys, lookup, keys}
use cnr_sandbox.Base.Exec.{Error, err, err_stopped, node_not_found}
use cnr_sandbox.World.{World}
use cnr_sandbox.Local.State.{System}
use cnr_sandbox.Local.Network.Remove.{
  remove_node, stop_nodes, stop, stop_network, unless_stopped, remove_node_checked,
  pause_node_checked,
}
use cnr_sandbox.Local.Network.Remove.Stopping.{stop_lem}
use cnr_sandbox.Local.Network.Restart.{resume_node, restart_node}
use cnr_sandbox.Local.Network.Load.{add_node_checked}
use cnr_sandbox.Local.Network.Phases.{Operation, add, remove, pause, resume, restart, perform, run}

module _ (W : World) where
  remove_node-stop_called :
      (name : String) (s : System W) → (remove_node W name s).1.net.stop_called ≡ s.net.stop_called
  unfolding remove_node
  remove_node-stop_called name s = ground arith

  stop_nodes-stop_called :
      (names : List String) (s : System W)
      → (stop_nodes W names s).1.net.stop_called ≡ s.net.stop_called
  unfolding stop_nodes
  stop_nodes-stop_called [] s = refl
  stop_nodes-stop_called (name ∷ names) s =
      stop_nodes-stop_called names (remove_node W name s).1 ∙ remove_node-stop_called name s

  stop-stop_called : (s : System W) → (stop W s).1.net.stop_called ≡ s.net.stop_called
  unfolding stop
  stop-stop_called s = stop_nodes-stop_called (keys s.net.nodes) s

  -- A network is closed when it was stopped and has no node.
  abbrev pub IsClosed : System W → Type 0
  IsClosed s = (s.net.stop_called ≡ true) × (s.net.nodes ≡ [])

  -- After the first Stop of a network in which no name stands twice, the network is marked as stopped and has no node, whatever its processes exit with.
  pub stop_network-IsClosed :
      (s : System W)
      → NodupKeys s.net.nodes
      → s.net.stop_called ≡ false
      → IsClosed (stop_network W s).1
  unfolding stop_network
  stop_network-IsClosed s u e =
      let t : System W = record s { net = record s.net { stop_called = true } } in
      rw e (stop-stop_called t, (stop_lem W t u).0)

  -- The error of an operation on a closed network: resuming and restarting do not look at the mark.
  abbrev closed_error : Operation → Error
  closed_error (add c) = err_stopped
  closed_error (remove name) = err_stopped
  closed_error (pause name) = err_stopped
  closed_error (resume name) = node_not_found name
  closed_error (restart o name) = node_not_found name

  perform_closed :
      (op : Operation) (s : System W) → IsClosed s → perform W op s ≡ (err (closed_error op), s)
  unfolding perform add_node_checked remove_node_checked pause_node_checked resume_node restart_node
      unless_stopped lookup
  perform_closed (add c) s (e, n) = rw e refl
  perform_closed (remove name) s (e, n) = rw e refl
  perform_closed (pause name) s (e, n) = rw e refl
  perform_closed (resume name) s (e, n) = rw n refl
  perform_closed (restart o name) s (e, n) = rw n refl

  run_closed : (ops : List Operation) (s : System W) → IsClosed s → run W ops s ≡ s
  unfolding run
  run_closed [] s c = refl
  run_closed (op ∷ ops) s c = rw (perform_closed op s c) (run_closed ops s c)

  stop_network_again : (s : System W) → IsClosed s → stop_network W s ≡ (err err_stopped, s)
  unfolding stop_network unless_stopped
  stop_network_again s (e, n) = rw e refl

  -- After the first Stop of a network in which no name stands twice, whatever its processes exit with, and after any further run of operations on nodes, each operation on nodes and another Stop fail, and the whole state is still the one that the first Stop left: adding, removing and pausing and the Stop fail with `err_stopped`, resuming and restarting because there is no such node.
  pub stop_network_lem :
      (ops : List Operation) (op : Operation) (s : System W)
      → NodupKeys s.net.nodes
      → s.net.stop_called ≡ false
      → (let t = (stop_network W s).1 in
          (perform W op (run W ops t) ≡ (err (closed_error op), t))
          × (stop_network W (run W ops t) ≡ (err err_stopped, t)))
  stop_network_lem ops op s u e =
      let t = (stop_network W s).1 in
      let closed = stop_network-IsClosed s u e in
      rw (run_closed ops t closed) (perform_closed op t closed, stop_network_again t closed)
