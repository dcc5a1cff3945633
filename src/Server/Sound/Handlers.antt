-- ===== src/Server/Sound/Handlers.antt =====
-- The handlers of server/server.go that find a network, one by one.
use cnr_sandbox.Base.{ℕ, String, Bool, some, List, is_empty}
use cnr_sandbox.Base.Exec.{ok, err, Exec, lift, err_no_blockchain_spec, ◌>>◌}
use cnr_sandbox.Config.{RestartOptions}
use cnr_sandbox.Config.Specs.{SubnetSpec, BlockchainSpec}
use cnr_sandbox.Server.State.{BlockchainRequest, SubnetRequest}
use cnr_sandbox.Server.Backend.{Backend}
use cnr_sandbox.Server.Network
use cnr_sandbox.Server.Network.{Managed, with_handle}
use cnr_sandbox.Server.Network.Handle.{
  with_handle-SameHandle, update_node_info-SameHandle, await_healthy-SameHandle,
  create_chains-SameHandle, create_subnets-SameHandle, beyond-SameHandle,
}
use cnr_sandbox.Server.Control
use cnr_sandbox.Server.Control.{run_chains}
use cnr_sandbox.Server.Control.Base.{Server, managed, stop_and_remove_network, on_error, set_health}
use cnr_sandbox.Server.Nodes
use cnr_sandbox.Server.Nodes.{change_nodes, AddNodeRequest}
use cnr_sandbox.Server.Snapshots
use cnr_sandbox.Server.Sound.{IsLive, IsSound, Serves}
use cnr_sandbox.Server.Sound.Steps.{
  Serves-bind, Serves-lift, managed-Serves, with_cluster-Serves, update_cluster_info-Serves,
  update_nodes-Serves, respond-Serves, on_error-Leaves, Leaves-Gains, bootstrapped-Serves,
  Leaves-if,
}

module _ (B : Backend) where
  ruleset serves = (
    Serves-bind, Serves-lift, managed-Serves, with_cluster-Serves, update_cluster_info-Serves,
    update_nodes-Serves, respond-Serves, with_handle-SameHandle, update_node_info-SameHandle,
    await_healthy-SameHandle, create_chains-SameHandle, create_subnets-SameHandle,
    beyond-SameHandle,
  )

  pub health-Serves : (s : Server B) → IsSound B s → Serves B (Nodes.health B s)
  unfolding Nodes.health
  health-Serves s h = bootstrapped-Serves B _ s h λ l. search serves depth 8

  change_nodes-Serves :
      (op : B.Handle → Exec B.State (Unit {0})) (s : Server B)
      → IsLive B s
      → Serves B (change_nodes B op s)
  unfolding change_nodes
  change_nodes-Serves op s h = search serves depth 8

  pub uris-Serves : (s : Server B) → IsSound B s → Serves B (Nodes.uris B s)
  unfolding Nodes.uris
  uris-Serves s h = bootstrapped-Serves B _ s h λ l.
      Serves-bind B (lift (Nodes.info_of B s.cluster_info)) _ s
        (Serves-lift B (Nodes.info_of B s.cluster_info) s l) λ a u k. Serves-lift B (ok _) u k

  pub status-Serves : (s : Server B) → IsSound B s → Serves B (Nodes.status B s)
  unfolding Nodes.status
  status-Serves s h = bootstrapped-Serves B _ s h λ l. Serves-lift B (ok s.cluster_info) s l

  pub add_node-Serves :
      (r : AddNodeRequest) (s : Server B) → IsSound B s → Serves B (Nodes.add_node B r s)
  unfolding Nodes.add_node
  add_node-Serves r s h =
      bootstrapped-Serves B _ s h λ l. search (serves, change_nodes-Serves) depth 8

  pub remove_node-Serves :
      (name : String) (s : Server B) → IsSound B s → Serves B (Nodes.remove_node B name s)
  unfolding Nodes.remove_node
  remove_node-Serves name s h =
      bootstrapped-Serves B _ s h λ l. search (serves, change_nodes-Serves) depth 8

  pub restart_node-Serves :
      (o : RestartOptions) (name : String) (s : Server B)
      → IsSound B s
      → Serves B (Nodes.restart_node B o name s)
  unfolding Nodes.restart_node
  restart_node-Serves o name s h =
      bootstrapped-Serves B _ s h λ l. search (serves, change_nodes-Serves) depth 8

  answer-Serves :
      (op : B.Handle → Exec B.State (Unit {0})) (s : Server B)
      → IsLive B s
      → Serves B ((change_nodes B op >> (λ t. (ok t.cluster_info, t))) s)
  answer-Serves op s h =
      Serves-bind B (change_nodes B op) _ s (change_nodes-Serves op s h)
        λ a u k. Serves-lift B (ok u.cluster_info) u k

  pub pause_node-Serves :
      (name : String) (s : Server B) → IsSound B s → Serves B (Nodes.pause_node B name s)
  unfolding Nodes.pause_node
  pause_node-Serves name s h =
      bootstrapped-Serves B _ s h λ l. answer-Serves (λ x. B.pause_node x name) s l

  pub resume_node-Serves :
      (name : String) (s : Server B) → IsSound B s → Serves B (Nodes.resume_node B name s)
  unfolding Nodes.resume_node
  resume_node-Serves name s h =
      bootstrapped-Serves B _ s h λ l. answer-Serves (λ x. B.resume_node x name) s l

  pub attach_peer-Serves :
      (name : String) (s : Server B) → IsSound B s → Serves B (Nodes.attach_peer B name s)
  unfolding Nodes.attach_peer
  attach_peer-Serves name s h = bootstrapped-Serves B _ s h λ l. search serves depth 12

  pub send_outbound_message-Serves :
      (name peer bytes : String) (op : ℕ) (s : Server B)
      → IsSound B s
      → Serves B (Nodes.send_outbound_message B name peer bytes op s)
  unfolding Nodes.send_outbound_message
  send_outbound_message-Serves name peer bytes op s h =
      bootstrapped-Serves B _ s h λ l. search serves depth 12

  pub get_snapshot_names-Serves :
      (s : Server B) → IsSound B s → Serves B (Snapshots.get_snapshot_names B s)
  unfolding Snapshots.get_snapshot_names
  get_snapshot_names-Serves s h = bootstrapped-Serves B _ s h λ l. search serves depth 8

  pub remove_snapshot-Serves :
      (name : String) (s : Server B) → IsSound B s → Serves B (Snapshots.remove_snapshot B name s)
  unfolding Snapshots.remove_snapshot
  remove_snapshot-Serves name s h = bootstrapped-Serves B _ s h λ l. search serves depth 8

  pub run_chains-Serves :
      (specs : List BlockchainSpec) (s : Server B) → IsLive B s → Serves B (run_chains B specs s)
  unfolding run_chains
  run_chains-Serves specs s h =
      on_error-Leaves B (IsLive B) _ some s
        (Leaves-Gains B (IsLive B) _ (managed-Serves B _ (create_chains-SameHandle B specs) s h))

  run_subnets-Serves :
      (specs : List SubnetSpec) (s : Server B)
      → IsLive B s
      → Serves B (
          on_error B
            (managed B (Network.create_subnets B specs))
            (λ e. stop_and_remove_network B (some e))
            s)
  run_subnets-Serves specs s h =
      on_error-Leaves B (IsLive B) _ some s
        (Leaves-Gains B (IsLive B) _ (managed-Serves B _ (create_subnets-SameHandle B specs) s h))

  set_health-Serves : (b : Bool) (s : Server B) → IsLive B s → Serves B (set_health B b s)
  unfolding set_health
  set_health-Serves b s h = with_cluster-Serves B _ s h

  ruleset answers = (serves, set_health-Serves, run_chains-Serves, run_subnets-Serves)

  pub create_blockchains-Serves :
      (requests : List BlockchainRequest) (s : Server B)
      → IsSound B s
      → Serves B (Control.create_blockchains B requests s)
  unfolding Control.create_blockchains
  create_blockchains-Serves requests s h = bootstrapped-Serves B _ s h λ l.
      Leaves-if B (IsLive B) (is_empty requests) _ _
        (λ e. Serves-lift B (err err_no_blockchain_spec) s l) (λ e. search answers depth 14)

  pub create_subnets-Serves :
      (requests : List SubnetRequest) (s : Server B)
      → IsSound B s
      → Serves B (Control.create_subnets B requests s)
  unfolding Control.create_subnets
  create_subnets-Serves requests s h = bootstrapped-Serves B _ s h λ l. search answers depth 14
