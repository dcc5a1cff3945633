-- ===== src/Server/Sound/Made.antt =====
-- Start and LoadSnapshot of server/network.go, which set `lc.nw`.
use cnr_sandbox.Base.{String, true, Option, none, some, ◌≡◌, ap, has_value}
use cnr_sandbox.Base.Exec.{Result, ok, err, crash, Exec, lift, ◌>>=◌, ◌>>◌, continue, modify}
use cnr_sandbox.Server.State.{ClusterInfo, ServerNetwork}
use cnr_sandbox.Server.Backend.{Backend}
use cnr_sandbox.Server.Config.{create_config}
use cnr_sandbox.Server.Network
use cnr_sandbox.Server.Network.{Managed, beyond, with_handle, new_local_network, update_node_info}
use cnr_sandbox.Server.Network.Handle.{update_node_info-SameHandle}
use cnr_sandbox.Server.Control.Base.{Server, run_on, managed}
use cnr_sandbox.Server.Sound.{LivePair, IsLive, Gains}

module _ (B : Backend) where
  -- A value of the call comes with the handle of the network.
  abbrev pub HasHandle : {A : Type 0} → Result A × Managed B → Type 0
  HasHandle (ok a, t) = has_value t.lc.nw ≡ true
  HasHandle (err e, t) = Unit
  HasHandle (crash m, t) = Unit

  HasHandle-continue :
      {A C : Type 0} (r : Result A) (f : A → Exec (Managed B) C) (u : Managed B)
      → ((a : A) (u : Managed B) → HasHandle (f a u))
      → HasHandle (continue r f u)
  HasHandle-continue (ok a) f u h = h a u
  HasHandle-continue (err e) f u h = tt
  HasHandle-continue (crash m) f u h = tt

  HasHandle-bind :
      {A C : Type 0} (m : Exec (Managed B) A) (f : A → Exec (Managed B) C) (s : Managed B)
      → ((a : A) (u : Managed B) → HasHandle (f a u))
      → HasHandle ((m >>= f) s)
  HasHandle-bind m f s h = let (r, u) = m s in HasHandle-continue r f u h

  handle-HasHandle :
      {A : Type 0} (x : Result A × Managed B) → has_value x.1.lc.nw ≡ true → HasHandle x
  handle-HasHandle (ok a, t) h = h
  handle-HasHandle (err e, t) h = tt
  handle-HasHandle (crash m, t) h = tt

  -- The new handle stays while the node infos are read.
  set_handle-HasHandle :
      (h : B.Handle) (u : Managed B)
      → HasHandle (
          (modify (λ (t : Managed B). record t { lc = record t.lc { nw = some h } })
              >> update_node_info B)
            u)
  set_handle-HasHandle h u = handle-HasHandle _ (
      ap has_value
        ((update_node_info-SameHandle B).at (record u { lc = record u.lc { nw = some h } })))

  pub start-HasHandle : (s : Managed B) → HasHandle (Network.start B s)
  unfolding Network.start
  start-HasHandle s =
      HasHandle-bind (beyond B (create_config B s.lc.options s.lc.exec_path s.lc.plugin_dir)) _ s
        λ cfg u.
          HasHandle-bind (beyond B (B.new_network cfg s.lc.options)) _ u
            λ h v. set_handle-HasHandle h v

  pub load_snapshot-HasHandle :
      (name : String) (s : Managed B) → HasHandle (Network.load_snapshot B name s)
  unfolding Network.load_snapshot
  load_snapshot-HasHandle name s = HasHandle-bind (lift _) _ s λ flags u.
      HasHandle-bind
        (beyond B
          (B.new_network_from_snapshot name s.lc.options s.lc.exec_path s.lc.plugin_dir flags))
        _ u λ h v. set_handle-HasHandle h v

  -- A network and its cluster information are there, whatever else.
  abbrev pub IsFresh : Server B → Type 0
  IsFresh s = (has_value s.network ≡ true) × (has_value s.cluster_info ≡ true)

  has-LivePair :
      (lc : ServerNetwork B.Handle) (c : Option ClusterInfo)
      → has_value lc.nw ≡ true
      → has_value c ≡ true
      → LivePair B (some lc) c
  unfolding LivePair
  has-LivePair lc none h k = cc
  has-LivePair lc (some info) h k = h

  made-IsLive :
      {A : Type 0} (x : Result A × Managed B) (s : Server B)
      → has_value s.cluster_info ≡ true
      → HasHandle x
      → Gains B (IsLive B) (x.0, record s { network = some x.1.lc; outer = x.1.outer })
  unfolding Gains IsLive
  made-IsLive (ok a, t) s c h = has-LivePair t.lc s.cluster_info h c
  made-IsLive (err e, t) s c h = tt
  made-IsLive (crash m, t) s c h = tt

  Gains-IsLive :
      {A : Type 0} (m : Exec (Managed B) A)
      → ((t : Managed B) → HasHandle (m t))
      → (n : Option (ServerNetwork B.Handle)) (s : Server B) → has_value s.cluster_info ≡ true
      → Gains B (IsLive B) (run_on B n m s)
  unfolding run_on Gains
  Gains-IsLive m h none s c = tt
  Gains-IsLive m h (some lc) s c =
      let x = m (record { lc = lc; outer = s.outer }) in
      made-IsLive x s c (h (record { lc = lc; outer = s.outer }))

  pub managed-Gains :
      {A : Type 0} (m : Exec (Managed B) A)
      → ((t : Managed B) → HasHandle (m t))
      → (s : Server B) → IsFresh s
      → Gains B (IsLive B) (managed B m s)
  unfolding managed
  managed-Gains m h s f = Gains-IsLive m h s.network s f.1
