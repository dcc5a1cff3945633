-- ===== src/Server/Snapshots.antt =====
-- The handlers of server/server.go over snapshots, and WaitForHealthy.
pub mod Waiting
use cnr_sandbox.Base.{
  String, Bool, true, false, Option, none, some, List, [], if◌then◌else◌, has_value,
}
use cnr_sandbox.Base.Dict.{Dict}
use cnr_sandbox.Base.Exec.{
  Error, both, Result, ok, err, crash, Exec, pure, fail, modify, ◌>>=◌, ◌>>◌, message,
  err_already_bootstrapped, err_not_bootstrapped,
}
use cnr_sandbox.Server.State.{ClusterInfo, Options}
use cnr_sandbox.Server.Backend.{Backend}
use cnr_sandbox.Server.Network
use cnr_sandbox.Server.Network.{new_local_network, with_handle}
use cnr_sandbox.Server.Control.{make_root_dir}
use cnr_sandbox.Server.Control.Base.{
  Server, outer, managed, bootstrapped, on_error, stop_and_remove_network, update_cluster_info,
  respond, new_cluster_info, deep_copy,
}

pub record LoadRequest : Type 0 where
  pub snapshot_name : String
  pub exec_path : String
  pub plugin_dir : String
  pub root_data_dir : String
  pub chain_configs : Dict String
  pub upgrade_configs : Dict String
  pub subnet_configs : Dict String
  pub global_node_config : String
  pub reassign_ports_if_used : Bool

-- What a round of WaitForHealthy comes to: an answer, with an error or without, or another round.
pub data Round : Type 0 where
  answered : Option ClusterInfo → Option Error → Round
  again : Round

module _ (B : Backend) where
  unfoldable pub load_options : Server B → LoadRequest → String → Options
  load_options s r root_data_dir = record {
    exec_path = r.exec_path;
    root_data_dir = root_data_dir;
    num_nodes = 0;
    track_subnets = "";
    redirect_nodes_output = false;
    global_node_config = r.global_node_config;
    plugin_dir = r.plugin_dir;
    custom_node_configs = [];
    chain_configs = r.chain_configs;
    upgrade_configs = r.upgrade_configs;
    subnet_configs = r.subnet_configs;
    snapshots_dir = s.snapshots_dir;
    reassign_ports_if_used = r.reassign_ports_if_used;
    dynamic_ports = false;
  }

  unfoldable pub install_loaded : Options → Exec (Server B) (Unit {0})
  install_loaded o = do
    lc ← outer B (new_local_network B o)
    modify (λ s. record s { network = some lc })
    modify (λ s. record s { cluster_info = some (new_cluster_info B o.root_data_dir) })

  -- `LoadSnapshot` up to its response; the goroutine that it starts is `await_loaded` and
  -- then `finish_load`.
  unfoldable pub load_snapshot : LoadRequest → Exec (Server B) ClusterInfo
  load_snapshot r s =
      if has_value s.network
      then fail err_already_bootstrapped s
      else (do
        root ← outer B (make_root_dir B r.root_data_dir)
        install_loaded (load_options s r root)
        on_error B (managed B (Network.load_snapshot B r.snapshot_name))
            λ e. stop_and_remove_network B none
        respond B)
          s

  -- The goroutine waits for the network without the lock, and updates what the server's network
  -- knows of its nodes and chains; it reads `s.network` when it starts.
  unfoldable pub await_loaded : Exec (Server B) (Unit {0})
  await_loaded = managed B (Network.await_healthy B)

  -- What the goroutine then does under the lock, with the outcome of its wait.
  unfoldable pub finish_load : Option Error → Exec (Server B) (Unit {0})
  finish_load none = update_cluster_info B
  finish_load (some e) = modify (stop_and_remove_network B (some e))

  -- A saved network is stopped and removed.
  unfoldable pub save_snapshot : String → Exec (Server B) String
  save_snapshot name = bootstrapped B (do
    path ← managed B (with_handle B (λ h. B.save_snapshot h name))
    modify (stop_and_remove_network B none)
    pure path)

  unfoldable pub remove_snapshot : String → Exec (Server B) (Unit {0})
  remove_snapshot name = bootstrapped B (managed B (with_handle B (λ h. B.remove_snapshot h name)))

  unfoldable pub get_snapshot_names : Exec (Server B) (List String)
  get_snapshot_names = bootstrapped B (managed B (with_handle B B.get_snapshot_names))

  -- The information with the error that ended the wait, if any; where the information cannot be
  -- copied, its error too. Copying does not panic, so a crash counts as an error here.
  unfoldable pub with_copy : Result ClusterInfo → Option Error → Round
  with_copy (ok info) e = answered (some info) e
  with_copy (err e') none = answered none (some e')
  with_copy (err e') (some e) = answered none (some (both e e'))
  with_copy (crash m) e = answered none (some (message m))

  -- After the deadline the error of a failed copy is the only one.
  unfoldable pub timed_out : Result ClusterInfo → Round
  timed_out (ok info) = answered (some info) (some (message "context deadline exceeded"))
  timed_out (err e) = answered none (some e)
  timed_out (crash m) = answered none (some (message m))

  -- The select: an error of the channel, the deadline, or neither. Where both are ready Go takes
  -- either; `late_first` says which.
  unfoldable pub wait_select :
      ClusterInfo → Option Error → Bool → Bool → Bool → Round × Option Error
  unfolding with_copy timed_out deep_copy
  wait_select info (some e) true true alive = (timed_out (deep_copy B info), some e)
  wait_select info (some e) late late_first alive = (with_copy (deep_copy B info) (some e), none)
  wait_select info none true late_first alive = (timed_out (deep_copy B info), none)
  wait_select info none false late_first true = (again, none)
  wait_select info none false late_first false = (answered none (some err_not_bootstrapped), none)

  unfoldable pub wait_info :
      Option ClusterInfo → Option Error → Bool → Bool → Bool → Round × Option Error
  unfolding wait_select with_copy deep_copy
  wait_info none e late late_first alive = (answered none (some err_not_bootstrapped), e)
  wait_info (some info) e late late_first alive =
      if info.custom_chains_healthy
      then (with_copy (deep_copy B info) none, e)
      else wait_select info e late late_first alive

  -- One round of the loop of WaitForHealthy.
  unfoldable pub wait_round : Bool → Bool → Server B → Round × Server B
  unfolding wait_info
  wait_round late late_first s =
      let (round, e) = wait_info s.cluster_info s.async_err late late_first (has_value s.network) in
      (round, record s { async_err = e })
