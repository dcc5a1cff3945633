-- ===== src/Server/Sound/Opening.antt =====
-- Start and LoadSnapshot of server/server.go, which make the network, and the calls that remove it.
use cnr_sandbox.Base.{
  String, true, false, Option, none, some, List, ◌≡◌, refl, ap, ltb, if◌then◌else◌, has_value,
  or_default, Option-cases, inl, inr,
}
use cnr_sandbox.Base.Exec.{
  Error, Result, err, Exec, lift, fail, err_already_bootstrapped, err_not_enough_nodes,
}
use cnr_sandbox.Config.Specs.{BlockchainSpec}
use cnr_sandbox.Server.State.{ClusterInfo, ServerNetwork, Options}
use cnr_sandbox.Server.Backend.{Backend}
use cnr_sandbox.Server.Specs.{check_exec_path, blockchain_specs}
use cnr_sandbox.Server.Network
use cnr_sandbox.Server.Network.{Managed, beyond, with_handle, new_local_network, update_node_info}
use cnr_sandbox.Server.Network.Handle.{with_handle-SameHandle, await_healthy-SameHandle}
use cnr_sandbox.Server.Control
use cnr_sandbox.Server.Control.{
  install, launch, run_chains, make_root_dir, start_options, StartRequest,
}
use cnr_sandbox.Server.Control.Base.{
  Server, outer, managed, stop_and_remove_network, on_error, update_cluster_info, update_from,
  copy_network, with_cluster, new_cluster_info, run_on,
}
use cnr_sandbox.Server.Snapshots
use cnr_sandbox.Server.Snapshots.{LoadRequest, load_options, install_loaded, finish_load}
use cnr_sandbox.Server.Sound.{SoundPair, IsLive, IsSound, IsIdle, Serves, Leaves, EndsSound}
use cnr_sandbox.Server.Sound.Steps.{
  SoundPair-LivePair, Leaves-if, bootstrapped-Leaves, with_cluster-Serves, Serves-EndsSound,
  Leaves-bind, Serves-bind, Serves-lift, managed-Serves, update_cluster_info-Serves, respond-Serves,
  on_error-Leaves, Leaves-any, stop_and_remove_network-IsSound,
}
use cnr_sandbox.Server.Sound.Handlers.{run_chains-Serves}
use cnr_sandbox.Server.Sound.Made.{
  HasHandle, IsFresh, start-HasHandle, load_snapshot-HasHandle, managed-Gains,
}

module _ (B : Backend) where
  idle-SoundPair :
      (n : Option (ServerNetwork B.Handle)) (info : ClusterInfo)
      → has_value n ≡ false
      → info.healthy ≡ false
      → info.custom_chains_healthy ≡ false
      → SoundPair B n (some info)
  unfolding SoundPair
  idle-SoundPair none info e h k = (h, k)
  idle-SoundPair (some lc) info e h k = cc

  -- A step beyond the server leaves it idle.
  outer-Leaves :
      {A : Type 0} (m : Exec B.State A) (s : Server B)
      → IsIdle B s
      → Leaves B (IsIdle B) (outer B m s)
  unfolding IsIdle IsSound
  outer-Leaves m s h = Leaves-any B (IsIdle B) _ _ h h.0

  lift-Leaves :
      {A : Type 0} (r : Result A) (s : Server B) → IsIdle B s → Leaves B (IsIdle B) (lift r s)
  unfolding IsIdle
  lift-Leaves r s h = Leaves-any B (IsIdle B) r s h h.0

  install-Leaves : (o : Options) (s : Server B) → IsIdle B s → Leaves B (IsFresh B) (install B o s)
  unfolding install IsIdle IsSound new_cluster_info Leaves
  install-Leaves o s h =
      let t = record s { cluster_info = some (new_cluster_info B o.root_data_dir) } in
      let idle = idle-SoundPair s.network (new_cluster_info B o.root_data_dir) h.1 refl refl in
      Leaves-bind B (λ u. has_value u.cluster_info ≡ true) (IsFresh B)
        (outer B (new_local_network B o)) _ t
        (Leaves-any B (λ u. has_value u.cluster_info ≡ true) _ _ refl idle) λ lc u k. (refl, k)

  install_loaded-Leaves :
      (o : Options) (s : Server B) → IsIdle B s → Leaves B (IsFresh B) (install_loaded B o s)
  unfolding install_loaded Leaves
  install_loaded-Leaves o s h =
      Leaves-bind B (IsIdle B) (IsFresh B) (outer B (new_local_network B o)) _ s
        (outer-Leaves (new_local_network B o) s h) λ lc u k. (refl, refl)

  -- A handler that refuses to run beside a network.
  refusing :
      {A : Type 0} (e : Error) (x : Result A × Server B) (s : Server B)
      → IsSound B s
      → (IsIdle B s → EndsSound B x)
      → EndsSound B (if has_value s.network then fail e s else x)
  unfolding IsIdle Leaves
  refusing e x s h k =
      Leaves-if B (IsSound B) (has_value s.network) (fail e s) x (λ p. h) (λ p. k (h, p))

  -- A method of the new network that fails takes the network away.
  opened :
      (m : Exec (Managed B) (Unit {0})) (e : Error → Option Error)
      → ((t : Managed B) → HasHandle B (m t))
      → (s : Server B) → IsFresh B s
      → Serves B (on_error B (managed B m) (λ x. stop_and_remove_network B (e x)) s)
  opened m e h s f = on_error-Leaves B (IsLive B) (managed B m) e s (managed-Gains B m h s f)

  pub load_snapshot-EndsSound :
      (r : LoadRequest) (s : Server B) → IsSound B s → EndsSound B (Snapshots.load_snapshot B r s)
  unfolding Snapshots.load_snapshot
  load_snapshot-EndsSound r s h = refusing err_already_bootstrapped _ s h λ i.
      Leaves-bind B (IsIdle B) (IsSound B) (outer B (make_root_dir B r.root_data_dir)) _ s
        (outer-Leaves (make_root_dir B r.root_data_dir) s i)
        λ root u k.
          Leaves-bind B (IsFresh B) (IsSound B) (install_loaded B (load_options B s r root)) _ u
            (install_loaded-Leaves (load_options B s r root) u k)
            λ _ v f. Serves-EndsSound B _ (
              Serves-bind B
                (on_error B (managed B (Network.load_snapshot B r.snapshot_name))
                  (λ e. stop_and_remove_network B none))
                _ v
                (opened (Network.load_snapshot B r.snapshot_name) (λ e. none)
                  (load_snapshot-HasHandle B r.snapshot_name) v f)
                λ _ w l. respond-Serves B w l)

  ruleset finishing =
      (Serves-bind, Serves-lift, update_cluster_info-Serves, respond-Serves, run_chains-Serves)

  launch-EndsSound :
      (o : Options) (specs : List BlockchainSpec) (s : Server B)
      → IsIdle B s
      → EndsSound B (launch B o specs s)
  unfolding launch
  launch-EndsSound o specs s h =
      Leaves-bind B (IsFresh B) (IsSound B) (install B o) _ s (install-Leaves o s h) λ _ t f.
        Serves-EndsSound B _ (
          Serves-bind B
            (on_error B (managed B (Network.start B)) (λ e. stop_and_remove_network B none)) _ t
            (opened (Network.start B) (λ e. none) (start-HasHandle B) t f)
            λ _ u l. search finishing depth 12)

  pub start-EndsSound :
      (r : StartRequest) (s : Server B) → IsSound B s → EndsSound B (Control.start B r s)
  unfolding Control.start
  start-EndsSound r s h = refusing err_already_bootstrapped _ s h λ i.
      Leaves-if B (IsSound B) (ltb (or_default 5 r.num_nodes) 1) (fail err_not_enough_nodes s) _
        (λ p. Leaves-any B (IsSound B) (err err_not_enough_nodes) s h h)
        λ p.
          Leaves-bind B (IsIdle B) (IsSound B) (lift (check_exec_path B r.exec_path s.outer)) _ s
            (lift-Leaves (check_exec_path B r.exec_path s.outer) s i)
            λ _ t j.
              Leaves-bind B (IsIdle B) (IsSound B)
                (lift (blockchain_specs B r.blockchain_specs true r.plugin_dir s.outer)) _ t
                (lift-Leaves (blockchain_specs B r.blockchain_specs true r.plugin_dir s.outer) t j)
                λ specs u k.
                  Leaves-bind B (IsIdle B) (IsSound B) (outer B (make_root_dir B r.root_data_dir)) _
                    u (outer-Leaves (make_root_dir B r.root_data_dir) u k)
                    λ root v l. launch-EndsSound (start_options B s r root) specs v l

  -- A saved network is gone.
  pub save_snapshot-EndsSound :
      (name : String) (s : Server B) → IsSound B s → EndsSound B (Snapshots.save_snapshot B name s)
  unfolding Snapshots.save_snapshot Leaves
  save_snapshot-EndsSound name s h = bootstrapped-Leaves B (IsSound B) _ s h λ l.
      Leaves-bind B (IsLive B) (IsSound B) (managed B (with_handle B (λ x. B.save_snapshot x name)))
        _ s (managed-Serves B _ (with_handle-SameHandle B (λ x. B.save_snapshot x name)) s l)
        λ path t k. stop_and_remove_network-IsSound B none t

  pub stop-IsSound : (s : Server B) → IsSound B (Control.stop B s).1
  unfolding Control.stop
  stop-IsSound s = stop_and_remove_network-IsSound B none s

  update_from-EndsSound :
      (n : Option (ServerNetwork B.Handle)) (s : Server B)
      → s.network ≡ n
      → IsSound B s
      → EndsSound B (update_from B n s)
  unfolding update_from Leaves IsSound IsLive
  update_from-EndsSound none s e h = h
  update_from-EndsSound (some lc) s e h =
      Serves-EndsSound B (with_cluster B (copy_network B lc) s) (
        with_cluster-Serves B (copy_network B lc) s
          (SoundPair-LivePair B s.network s.cluster_info h (ap has_value e)))

  pub finish_load-EndsSound :
      (e : Option Error) (s : Server B) → IsSound B s → EndsSound B (finish_load B e s)
  unfolding finish_load update_cluster_info Leaves
  finish_load-EndsSound (some e) s h = stop_and_remove_network-IsSound B (some e) s
  finish_load-EndsSound none s h = update_from-EndsSound s.network s refl h

  -- Without a network the wait panics; with one, the network stays created.
  pub await_loaded-EndsSound :
      (s : Server B) → IsSound B s → EndsSound B (Snapshots.await_loaded B s)
  unfolding Snapshots.await_loaded managed run_on Leaves IsSound IsLive
  await_loaded-EndsSound s h = elim (Option-cases s.network) [
    | inl gone ↦ rw gone tt
    | inr (lc, found) ↦ Serves-EndsSound B (Snapshots.await_loaded B s) (
        managed-Serves B (Network.await_healthy B) (await_healthy-SameHandle B) s
          (SoundPair-LivePair B s.network s.cluster_info h (ap has_value found)))
  ]
