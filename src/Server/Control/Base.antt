-- ===== src/Server/Control/Base.antt =====
-- The server object of server/server.go and the steps that its handlers share.
use cnr_sandbox.Base.{String, Bool, true, false, Option, none, some, [], if◌then◌else◌, has_value}
use cnr_sandbox.Base.Dict.{keys}
use cnr_sandbox.Base.Exec.{
  Error, Result, ok, err, crash, Exec, pure, fail, panic, lift, bind_result, err_not_bootstrapped,
}
use cnr_sandbox.Server.State.{ClusterInfo, ServerNetwork}
use cnr_sandbox.Server.Backend.{Backend}
use cnr_sandbox.Server.Network
use cnr_sandbox.Server.Network.{Managed}

module _ (B : Backend) where
  -- `async_err` is the channel of capacity one.
  pub record Server : Type 0 where
    pub cluster_info : Option ClusterInfo
    pub network : Option (ServerNetwork B.Handle)
    pub async_err : Option Error
    pub redirect_nodes_output : Bool
    pub snapshots_dir : String
    pub outer : B.State

module _ (B : Backend) where
  abbrev pub outer : {A : Type 0} → Exec B.State A → Exec (Server B) A
  outer m s = let (r, o) = m s.outer in (r, record s { outer = o })

  unfoldable pub run_on :
      {A : Type 0} → Option (ServerNetwork B.Handle) → Exec (Managed B) A → Exec (Server B) A
  run_on none m s = panic "nil network" s
  run_on (some lc) m s =
      let (r, t) = m (record { lc = lc; outer = s.outer }) in
      (r, record s { network = some t.lc; outer = t.outer })

  -- A method of `s.network`.
  unfoldable pub managed : {A : Type 0} → Exec (Managed B) A → Exec (Server B) A
  unfolding run_on
  managed m s = run_on s.network m s

  -- The guard of the handlers.
  unfoldable pub bootstrapped : {A : Type 0} → Exec (Server B) A → Exec (Server B) A
  bootstrapped m s = if has_value s.network then m s else fail err_not_bootstrapped s

  unfoldable pub handle_error :
      {A : Type 0} → Result A → (Error → Server B → Server B) → Exec (Server B) A
  handle_error (ok a) cleanup s = (ok a, s)
  handle_error (err e) cleanup s = (err e, cleanup e s)
  handle_error (crash m) cleanup s = (crash m, s)

  -- `if err != nil { cleanup; return nil, err }`
  unfoldable pub on_error :
      {A : Type 0} → Exec (Server B) A → (Error → Server B → Server B) → Exec (Server B) A
  unfolding handle_error
  on_error m cleanup s = let (r, t) = m s in handle_error r cleanup t

  unfoldable pub unhealthy : Option ClusterInfo → Option ClusterInfo
  unhealthy none = none
  unhealthy (some info) = some (record info { healthy = false; custom_chains_healthy = false })

  unfoldable pub stopped : Option (ServerNetwork B.Handle) → B.State → B.State
  unfolding Network.stop
  stopped none o = o
  stopped (some lc) o = Network.stop B lc o

  -- The channel is drained, so a new error never blocks.
  unfoldable pub stop_and_remove_network : Option Error → Server B → Server B
  unfolding unhealthy stopped
  stop_and_remove_network e s = record s {
    async_err = e;
    outer = stopped s.network s.outer;
    cluster_info = unhealthy s.cluster_info;
    network = none;
  }

  unfoldable pub new_cluster_info : String → ClusterInfo
  new_cluster_info root_data_dir = record {
    pid = B.pid;
    root_data_dir = root_data_dir;
    healthy = false;
    node_names = [];
    node_infos = [];
    attached_peer_infos = [];
    custom_chains_healthy = false;
    custom_chains = [];
    subnets = [];
    subnet_participants = [];
  }

  unfoldable pub change_cluster :
      Option ClusterInfo → (ClusterInfo → ClusterInfo) → Exec (Server B) (Unit {0})
  change_cluster none f s = panic "nil cluster info" s
  change_cluster (some info) f s = pure tt (record s { cluster_info = some (f info) })

  -- A write to `s.clusterInfo`, which may be nil.
  unfoldable pub with_cluster : (ClusterInfo → ClusterInfo) → Exec (Server B) (Unit {0})
  unfolding change_cluster
  with_cluster f s = change_cluster s.cluster_info f s

  unfoldable pub set_health : Bool → Exec (Server B) (Unit {0})
  unfolding with_cluster
  set_health b = with_cluster (λ info. record info { healthy = b; custom_chains_healthy = b })

  -- The node names, sorted, and the node infos.
  unfoldable pub copy_nodes : ServerNetwork B.Handle → ClusterInfo → ClusterInfo
  copy_nodes lc info = record info {
    node_names = B.sort (keys lc.node_infos);
    node_infos = lc.node_infos;
  }

  unfoldable pub copy_network : ServerNetwork B.Handle → ClusterInfo → ClusterInfo
  copy_network lc info = record info {
    healthy = true;
    node_names = B.sort (keys lc.node_infos);
    node_infos = lc.node_infos;
    custom_chains_healthy = true;
    custom_chains = lc.custom_chains;
    subnets = lc.subnets;
    subnet_participants = lc.subnet_participants;
  }

  unfoldable pub update_from : Option (ServerNetwork B.Handle) → Exec (Server B) (Unit {0})
  unfolding with_cluster copy_network
  update_from none = pure tt
  update_from (some lc) = with_cluster (copy_network lc)

  -- A network that was stopped in the meantime leaves the information as it is.
  unfoldable pub update_cluster_info : Exec (Server B) (Unit {0})
  unfolding update_from
  update_cluster_info s = update_from s.network s

  unfoldable pub nodes_from : Option (ServerNetwork B.Handle) → Exec (Server B) (Unit {0})
  unfolding with_cluster copy_nodes
  nodes_from none = panic "nil network"
  nodes_from (some lc) = with_cluster (copy_nodes lc)

  unfoldable pub update_nodes : Exec (Server B) (Unit {0})
  unfolding nodes_from
  update_nodes s = nodes_from s.network s

  -- `deepCopy`: through JSON and back. A nil pointer comes back as an empty message.
  unfoldable pub deep_copy : ClusterInfo → Result ClusterInfo
  deep_copy info = bind_result (B.print_cluster info) λ body. B.parse_cluster body

  unfoldable pub copy_of : Option ClusterInfo → Result ClusterInfo
  unfolding deep_copy
  copy_of none = crash "nil cluster info"
  copy_of (some info) = deep_copy info

  unfoldable pub respond : Exec (Server B) ClusterInfo
  unfolding copy_of
  respond s = lift (copy_of s.cluster_info) s
