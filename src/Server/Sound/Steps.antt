-- ===== src/Server/Sound/Steps.antt =====
-- The steps of a handler of server/server.go, and what they make of a live or a sound server.
use cnr_sandbox.Base.{
  Bool, true, false, Option, none, some, ◌≡◌, refl, ◌∙◌, ap, has_value, if◌then◌else◌,
}
use cnr_sandbox.Base.Exec.{
  Error, Result, ok, err, crash, Exec, lift, continue, err_not_bootstrapped, ◌>>=◌, Within,
}
use cnr_sandbox.Server.State.{ClusterInfo, ServerNetwork}
use cnr_sandbox.Server.Backend.{Backend}
use cnr_sandbox.Server.Network.{Managed}
use cnr_sandbox.Server.Network.Handle.{SameHandle}
use cnr_sandbox.Server.Control.Base.{
  Server, run_on, managed, bootstrapped, handle_error, on_error, change_cluster, with_cluster,
  update_from, update_cluster_info, nodes_from, update_nodes, copy_network, copy_nodes, unhealthy,
  stop_and_remove_network, copy_of, respond,
}
use cnr_sandbox.Server.Sound.{
  EndsSound, Gains, IsLive, IsSound, Leaves, LivePair, Serves, SoundPair,
}

module _ (B : Backend) where
  LivePair-SoundPair :
      (n : Option (ServerNetwork B.Handle)) (c : Option ClusterInfo)
      → LivePair B n c
      → SoundPair B n c
  unfolding LivePair SoundPair
  LivePair-SoundPair (some lc) (some info) h = h
  LivePair-SoundPair (some lc) none h = h
  LivePair-SoundPair none c h = absurd h

  pub IsLive-IsSound : (s : Server B) → IsLive B s → IsSound B s
  unfolding IsLive IsSound
  IsLive-IsSound s h = LivePair-SoundPair s.network s.cluster_info h

  pub Serves-EndsSound : {A : Type 0} (x : Result A × Server B) → Serves B x → EndsSound B x
  unfolding Leaves
  Serves-EndsSound (ok a, t) h = IsLive-IsSound t h
  Serves-EndsSound (err e, t) h = h
  Serves-EndsSound (crash m, t) h = h

  Leaves-continue :
      (P Q : Server B → Type 0) {A C : Type 0} (r : Result A) (f : A → Exec (Server B) C)
      (t : Server B)
      → Leaves B P (r, t)
      → ((a : A) (u : Server B) → P u → Leaves B Q (f a u))
      → Leaves B Q (continue r f t)
  unfolding Leaves
  Leaves-continue P Q (ok a) f t h k = k a t h
  Leaves-continue P Q (err e) f t h k = h
  Leaves-continue P Q (crash m) f t h k = h

  pub Leaves-bind :
      (P Q : Server B → Type 0) {A C : Type 0} (m : Exec (Server B) A) (f : A → Exec (Server B) C)
      (s : Server B)
      → Leaves B P (m s)
      → ((a : A) (u : Server B) → P u → Leaves B Q (f a u))
      → Leaves B Q ((m >>= f) s)
  Leaves-bind P Q m f s h k = let (r, t) = m s in Leaves-continue P Q r f t h k

  pub Serves-bind :
      {A C : Type 0} (m : Exec (Server B) A) (f : A → Exec (Server B) C) (s : Server B)
      → Serves B (m s)
      → ((a : A) (u : Server B) → IsLive B u → Serves B (f a u))
      → Serves B ((m >>= f) s)
  Serves-bind m f s h k = Leaves-bind (IsLive B) (IsLive B) m f s h k

  pub Leaves-any :
      (P : Server B → Type 0) {A : Type 0} (r : Result A) (s : Server B)
      → P s
      → IsSound B s
      → Leaves B P (r, s)
  unfolding Leaves
  Leaves-any P (ok a) s h k = h
  Leaves-any P (err e) s h k = k
  Leaves-any P (crash m) s h k = tt

  pub Serves-lift : {A : Type 0} (r : Result A) (s : Server B) → IsLive B s → Serves B (lift r s)
  Serves-lift r s h = Leaves-any (IsLive B) r s h (IsLive-IsSound s h)

  same-LivePair :
      (n : ServerNetwork B.Handle) (m : ServerNetwork B.Handle) (c : Option ClusterInfo)
      → m.nw ≡ n.nw
      → LivePair B (some n) c
      → LivePair B (some m) c
  unfolding LivePair
  same-LivePair n m (some info) e h = ap has_value e ∙ h
  same-LivePair n m none e h = h

  run_on-Serves :
      {A : Type 0} (m : Exec (Managed B) A)
      → Within (SameHandle B) m
      → (n : Option (ServerNetwork B.Handle)) (s : Server B) → LivePair B n s.cluster_info
      → Serves B (run_on B n m s)
  unfolding run_on LivePair IsLive
  run_on-Serves m w none s h = absurd h
  run_on-Serves m w (some lc) s h =
      let x = m (record { lc = lc; outer = s.outer }) in
      Serves-lift x.0 (record s { network = some x.1.lc; outer = x.1.outer })
        (same-LivePair lc x.1.lc s.cluster_info (w.at (record { lc = lc; outer = s.outer })) h)

  pub managed-Serves :
      {A : Type 0} (m : Exec (Managed B) A)
      → Within (SameHandle B) m
      → (s : Server B) → IsLive B s
      → Serves B (managed B m s)
  unfolding managed IsLive
  managed-Serves m w s h = run_on-Serves m w s.network s h

  changed-LivePair :
      (f : ClusterInfo → ClusterInfo) (n : Option (ServerNetwork B.Handle)) (info : ClusterInfo)
      → LivePair B n (some info)
      → LivePair B n (some (f info))
  unfolding LivePair
  changed-LivePair f none info h = h
  changed-LivePair f (some lc) info h = h

  change_cluster-Serves :
      (f : ClusterInfo → ClusterInfo) (c : Option ClusterInfo) (s : Server B)
      → LivePair B s.network c
      → Serves B (change_cluster B c f s)
  unfolding change_cluster Leaves IsLive
  change_cluster-Serves f none s h = tt
  change_cluster-Serves f (some info) s h = changed-LivePair f s.network info h

  pub with_cluster-Serves :
      (f : ClusterInfo → ClusterInfo) (s : Server B) → IsLive B s → Serves B (with_cluster B f s)
  unfolding with_cluster IsLive
  with_cluster-Serves f s h = change_cluster-Serves f s.cluster_info s h

  update_from-Serves :
      (n : Option (ServerNetwork B.Handle)) (s : Server B)
      → IsLive B s
      → Serves B (update_from B n s)
  unfolding update_from Leaves
  update_from-Serves none s h = h
  update_from-Serves (some lc) s h = with_cluster-Serves (copy_network B lc) s h

  pub update_cluster_info-Serves : (s : Server B) → IsLive B s → Serves B (update_cluster_info B s)
  unfolding update_cluster_info
  update_cluster_info-Serves s h = update_from-Serves s.network s h

  nodes_from-Serves :
      (n : Option (ServerNetwork B.Handle)) (s : Server B)
      → IsLive B s
      → Serves B (nodes_from B n s)
  unfolding nodes_from Leaves
  nodes_from-Serves none s h = tt
  nodes_from-Serves (some lc) s h = with_cluster-Serves (copy_nodes B lc) s h

  pub update_nodes-Serves : (s : Server B) → IsLive B s → Serves B (update_nodes B s)
  unfolding update_nodes
  update_nodes-Serves s h = nodes_from-Serves s.network s h

  pub respond-Serves : (s : Server B) → IsLive B s → Serves B (respond B s)
  unfolding respond
  respond-Serves s h = Serves-lift (copy_of B s.cluster_info) s h

  stopped-SoundPair : (e : Option Error) (c : Option ClusterInfo) → SoundPair B none (unhealthy B c)
  unfolding SoundPair unhealthy
  stopped-SoundPair e none = tt
  stopped-SoundPair e (some info) = (refl, refl)

  -- Stopping leaves a sound server whatever it was before.
  pub stop_and_remove_network-IsSound :
      (e : Option Error) (s : Server B) → IsSound B (stop_and_remove_network B e s)
  unfolding stop_and_remove_network IsSound
  stop_and_remove_network-IsSound e s = stopped-SoundPair e s.cluster_info

  handle_error-Leaves :
      (P : Server B → Type 0) {A : Type 0} (r : Result A) (e : Error → Option Error) (t : Server B)
      → Gains B P (r, t)
      → Leaves B P (handle_error B r (λ x. stop_and_remove_network B (e x)) t)
  unfolding handle_error Leaves Gains
  handle_error-Leaves P (ok a) e t h = h
  handle_error-Leaves P (err x) e t h = stop_and_remove_network-IsSound (e x) t
  handle_error-Leaves P (crash m) e t h = h

  pub on_error-Leaves :
      (P : Server B → Type 0) {A : Type 0} (m : Exec (Server B) A) (e : Error → Option Error)
      (s : Server B)
      → Gains B P (m s)
      → Leaves B P (on_error B m (λ x. stop_and_remove_network B (e x)) s)
  unfolding on_error
  on_error-Leaves P m e s h = let (r, t) = m s in handle_error-Leaves P r e t h

  pub Leaves-Gains :
      (P : Server B → Type 0) {A : Type 0} (x : Result A × Server B) → Leaves B P x → Gains B P x
  unfolding Leaves Gains
  Leaves-Gains P (ok a, t) h = h
  Leaves-Gains P (err e, t) h = tt
  Leaves-Gains P (crash m, t) h = tt

  pub Leaves-if :
      (P : Server B → Type 0) {A : Type 0} (b : Bool) (x y : Result A × Server B)
      → (b ≡ true → Leaves B P x)
      → (b ≡ false → Leaves B P y)
      → Leaves B P (if b then x else y)
  Leaves-if P true x y h k = h refl
  Leaves-if P false x y h k = k refl

  pub SoundPair-LivePair :
      (n : Option (ServerNetwork B.Handle)) (c : Option ClusterInfo)
      → SoundPair B n c
      → has_value n ≡ true
      → LivePair B n c
  unfolding SoundPair LivePair
  SoundPair-LivePair none c h e = cc
  SoundPair-LivePair (some lc) none h e = h
  SoundPair-LivePair (some lc) (some info) h e = h

  -- The guard: what follows it meets a live server.
  pub bootstrapped-Leaves :
      (P : Server B → Type 0) {A : Type 0} (m : Exec (Server B) A) (s : Server B)
      → IsSound B s
      → (IsLive B s → Leaves B P (m s))
      → Leaves B P (bootstrapped B m s)
  unfolding bootstrapped IsSound IsLive Leaves
  bootstrapped-Leaves P m s h k =
      Leaves-if P (has_value s.network) (m s) (err err_not_bootstrapped, s)
        (λ e. k (SoundPair-LivePair s.network s.cluster_info h e)) (λ e. h)

  pub bootstrapped-Serves :
      {A : Type 0} (m : Exec (Server B) A) (s : Server B)
      → IsSound B s
      → (IsLive B s → Serves B (m s))
      → Serves B (bootstrapped B m s)
  bootstrapped-Serves m s h k = bootstrapped-Leaves (IsLive B) m s h k
