-- ===== src/Server/Nodes.antt =====
-- The handlers of server/server.go over single nodes: Health, URIs, Status, AddNode, RemoveNode,
-- RestartNode, PauseNode, ResumeNode, AttachPeer, SendOutboundMessage.
use cnr_sandbox.Base.{
  ℕ, String, Bool, true, false, Option, none, some, List, [], ◌∷◌, ◌++◌, ◌==◌, if◌then◌else◌, map,
  or_default,
}
use cnr_sandbox.Base.Dict.{Dict, lookup, insert, values}
use cnr_sandbox.Base.Exec.{Result, ok, err, crash, Exec, pure, lift, get, ◌>>=◌, ◌>>◌}
use cnr_sandbox.Config.{Value, text, NodeConfig, RestartOptions}
use cnr_sandbox.Server.State.{NodeInfo, ClusterInfo}
use cnr_sandbox.Server.Backend.{Backend}
use cnr_sandbox.Server.Network.{with_handle, update_node_info, await_healthy}
use cnr_sandbox.Server.Control.Base.{
  Server, managed, bootstrapped, with_cluster, update_nodes, respond,
}

pub record AddNodeRequest : Type 0 where
  pub name : String
  pub exec_path : String
  pub node_config : String
  pub plugin_dir : String
  pub chain_configs : Option (Dict String)
  pub upgrade_configs : Option (Dict String)
  pub subnet_configs : Option (Dict String)

module _ (B : Backend) where
  unfoldable pub health : Exec (Server B) ClusterInfo
  health = bootstrapped B (do
    managed B (await_healthy B)
    update_nodes B
    with_cluster B (λ info. record info { healthy = true })
    respond B)

  -- The information of the cluster as it is.
  unfoldable pub info_of : Option ClusterInfo → Result ClusterInfo
  info_of none = crash "nil cluster info"
  info_of (some info) = ok info

  unfoldable pub uris : Exec (Server B) (List String)
  uris = bootstrapped B (do
    s ← get
    info ← lift (info_of s.cluster_info)
    pure (B.sort (map (λ (n : NodeInfo). n.uri) (values info.node_infos))))

  unfoldable pub status : Exec (Server B) (Option ClusterInfo)
  status = bootstrapped B (λ s. (ok s.cluster_info, s))

  -- A change of the nodes, after which the infos and the cluster information follow.
  unfoldable pub change_nodes : (B.Handle → Exec B.State (Unit {0})) → Exec (Server B) (Unit {0})
  change_nodes op = do managed B (with_handle B op); managed B (update_node_info B); update_nodes B

  unfoldable pub add_flags : AddNodeRequest → Result (Dict Value)
  unfolding insert
  add_flags r = elim (if r.node_config == "" then ok [] else B.parse_json r.node_config) [
    | ok flags ↦
        ok (if r.plugin_dir == "" then flags else insert B.plugin_dir_key (text r.plugin_dir) flags)
    | err e ↦ err e
    | crash m ↦ crash m
  ]

  unfoldable pub node_config : AddNodeRequest → Bool → Dict Value → NodeConfig
  node_config r redirect flags = record {
    name = r.name;
    is_beacon = false;
    staking_key = "";
    staking_cert = "";
    staking_signing_key = "";
    config_file = "";
    chain_config_files = r.chain_configs;
    upgrade_config_files = r.upgrade_configs;
    subnet_config_files = r.subnet_configs;
    flags = some flags;
    binary_path = r.exec_path;
    redirect_stdout = redirect;
    redirect_stderr = redirect;
  }

  unfoldable pub add_node : AddNodeRequest → Exec (Server B) ClusterInfo
  add_node r = bootstrapped B λ s.
      (do
        flags ← lift (add_flags r)
        change_nodes (λ h. B.add_node h (node_config r s.redirect_nodes_output flags))
        respond B)
        s

  unfoldable pub remove_node : String → Exec (Server B) ClusterInfo
  remove_node name = bootstrapped B (change_nodes (λ h. B.remove_node h name) >> respond B)

  unfoldable pub restart_node : RestartOptions → String → Exec (Server B) ClusterInfo
  restart_node o name = bootstrapped B (change_nodes (λ h. B.restart_node h o name) >> respond B)

  -- PauseNode and ResumeNode answer with the information itself, not with a copy.
  unfoldable pub pause_node : String → Exec (Server B) (Option ClusterInfo)
  pause_node name =
      bootstrapped B (change_nodes (λ h. B.pause_node h name) >> λ s. (ok s.cluster_info, s))

  unfoldable pub resume_node : String → Exec (Server B) (Option ClusterInfo)
  resume_node name =
      bootstrapped B (change_nodes (λ h. B.resume_node h name) >> λ s. (ok s.cluster_info, s))

  -- One more peer of a node.
  unfoldable pub attach : String → String → Dict (List String) → Dict (List String)
  unfolding lookup insert
  attach node peer infos = insert node (or_default [] (lookup node infos) ++ peer ∷ []) infos

  unfoldable pub attach_peer : String → Exec (Server B) (ClusterInfo × String)
  attach_peer name = bootstrapped B (do
    node ← managed B (with_handle B (λ h. B.get_node h name))
    peer ← managed B (λ s. let (r, o) = B.attach_peer node s.outer in (r, record s { outer = o }))
    with_cluster B
        (λ info. record info { attached_peer_infos = attach name peer info.attached_peer_infos })
    info ← respond B
    pure (info, peer))

  unfoldable pub send_outbound_message : String → String → String → ℕ → Exec (Server B) Bool
  send_outbound_message name peer bytes op = bootstrapped B (do
    node ← managed B (with_handle B (λ h. B.get_node h name))
    managed B λ s.
        let (r, o) = B.send_outbound_message node peer bytes op s.outer in
        (r, record s { outer = o }))
