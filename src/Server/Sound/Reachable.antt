-- ===== src/Server/Sound/Reachable.antt =====
-- Every state that the server of server/server.go comes to.
use cnr_sandbox.Base.Exec.{Result, ok, err, crash, Exec}
use cnr_sandbox.Server.Backend.{Backend}
use cnr_sandbox.Server.Control.Base.{Server}
use cnr_sandbox.Server.Calls
use cnr_sandbox.Server.Calls.{Call, outcome, serve, Survives, Reaches}
use cnr_sandbox.Server.Control
use cnr_sandbox.Server.Nodes
use cnr_sandbox.Server.Snapshots
use cnr_sandbox.Server.Sound.{IsSound, Leaves, EndsSound, Serves}
use cnr_sandbox.Server.Sound.Steps.{Serves-EndsSound}
use cnr_sandbox.Server.Sound.Handlers.{
  health-Serves, uris-Serves, status-Serves, add_node-Serves, remove_node-Serves,
  restart_node-Serves, pause_node-Serves, resume_node-Serves, attach_peer-Serves,
  send_outbound_message-Serves, get_snapshot_names-Serves, remove_snapshot-Serves,
  create_blockchains-Serves, create_subnets-Serves,
}
use cnr_sandbox.Server.Sound.Opening.{
  start-EndsSound, load_snapshot-EndsSound, save_snapshot-EndsSound, stop-IsSound,
  await_loaded-EndsSound, finish_load-EndsSound,
}

module _ (B : Backend) where
  result-EndsSound :
      {A : Type 0} (r : Result A) (t : Server B)
      → EndsSound B (r, t)
      → EndsSound B (outcome B (r, t))
  unfolding outcome Leaves
  result-EndsSound (ok a) t h = h
  result-EndsSound (err e) t h = h
  result-EndsSound (crash m) t h = h

  outcome-EndsSound :
      {A : Type 0} (m : Exec (Server B) A) (s : Server B)
      → EndsSound B (m s)
      → EndsSound B (outcome B (m s))
  outcome-EndsSound m s h = let (r, t) = m s in result-EndsSound r t h

  served :
      {A : Type 0} (m : Exec (Server B) A) (s : Server B)
      → Serves B (m s)
      → EndsSound B (outcome B (m s))
  served m s h = outcome-EndsSound m s (Serves-EndsSound B (m s) h)

  -- Every call, failed or not, leaves a sound server sound.
  serve-EndsSound : (c : Call B) (s : Server B) → IsSound B s → EndsSound B (serve B c s)
  unfolding serve Control.stop Snapshots.wait_round Leaves IsSound
  serve-EndsSound (Calls.start r) s h =
      outcome-EndsSound (Control.start B r) s (start-EndsSound B r s h)
  serve-EndsSound (Calls.create_blockchains r) s h =
      served (Control.create_blockchains B r) s (create_blockchains-Serves B r s h)
  serve-EndsSound (Calls.create_subnets r) s h =
      served (Control.create_subnets B r) s (create_subnets-Serves B r s h)
  serve-EndsSound Calls.health s h = served (Nodes.health B) s (health-Serves B s h)
  serve-EndsSound Calls.uris s h = served (Nodes.uris B) s (uris-Serves B s h)
  serve-EndsSound Calls.status s h = served (Nodes.status B) s (status-Serves B s h)
  serve-EndsSound Calls.stop s h = outcome-EndsSound (Control.stop B) s (stop-IsSound B s)
  serve-EndsSound Calls.get_snapshot_names s h =
      served (Snapshots.get_snapshot_names B) s (get_snapshot_names-Serves B s h)
  serve-EndsSound (Calls.add_node r) s h = served (Nodes.add_node B r) s (add_node-Serves B r s h)
  serve-EndsSound (Calls.remove_node name) s h =
      served (Nodes.remove_node B name) s (remove_node-Serves B name s h)
  serve-EndsSound (Calls.pause_node name) s h =
      served (Nodes.pause_node B name) s (pause_node-Serves B name s h)
  serve-EndsSound (Calls.resume_node name) s h =
      served (Nodes.resume_node B name) s (resume_node-Serves B name s h)
  serve-EndsSound (Calls.restart_node o name) s h =
      served (Nodes.restart_node B o name) s (restart_node-Serves B o name s h)
  serve-EndsSound (Calls.attach_peer name) s h =
      served (Nodes.attach_peer B name) s (attach_peer-Serves B name s h)
  serve-EndsSound (Calls.send_outbound_message name peer bytes op) s h =
      served (Nodes.send_outbound_message B name peer bytes op) s
        (send_outbound_message-Serves B name peer bytes op s h)
  serve-EndsSound (Calls.load_snapshot r) s h =
      outcome-EndsSound (Snapshots.load_snapshot B r) s (load_snapshot-EndsSound B r s h)
  serve-EndsSound (Calls.save_snapshot name) s h =
      outcome-EndsSound (Snapshots.save_snapshot B name) s (save_snapshot-EndsSound B name s h)
  serve-EndsSound (Calls.remove_snapshot name) s h =
      served (Snapshots.remove_snapshot B name) s (remove_snapshot-Serves B name s h)
  serve-EndsSound Calls.awaited s h =
      outcome-EndsSound (Snapshots.await_loaded B) s (await_loaded-EndsSound B s h)
  serve-EndsSound (Calls.loaded e) s h =
      outcome-EndsSound (Snapshots.finish_load B e) s (finish_load-EndsSound B e s h)
  serve-EndsSound (Calls.wait_for_healthy late late_first) s h = h
  serve-EndsSound (Calls.elsewhere o) s h = h

  survivor : {A : Type 0} (x : Result A × Server B) → EndsSound B x → Survives B x.0 → IsSound B x.1
  unfolding Leaves Survives
  survivor (ok a, t) h k = h
  survivor (err e, t) h k = h
  survivor (crash m, t) h k = absurd k

  -- Whatever calls a server that starts sound answers without a panic, in whatever order, it stays sound: a network that it holds has been created and has its cluster information, and without a network its cluster information, if any, reports nothing healthy.
  pub reachable-IsSound : (s t : Server B) → IsSound B s → Reaches B s t → IsSound B t
  reachable-IsSound s t h Calls.here = h
  reachable-IsSound s t h (Calls.then u c r k) =
      survivor (serve B c u) (serve-EndsSound c u (reachable-IsSound s u h r)) k
