-- ===== src/Server/Sound.antt =====
-- What `s.network` and `s.clusterInfo` of server/server.go mean together.
pub mod Steps
pub mod Handlers
pub mod Made
pub mod Opening
pub mod Reachable
use cnr_sandbox.Base.{
  Bool, true, false, Option, none, some, ◌≡◌, refl, ◌∙◌, ap, List, has_value, if◌then◌else◌,
}
use cnr_sandbox.Base.Exec.{
  Error, Result, ok, err, crash, Exec, pure, fail, lift, continue, err_not_bootstrapped, modify,
  ◌>>=◌, ◌>>◌, Within,
}
use cnr_sandbox.Server.State.{ClusterInfo, ServerNetwork}
use cnr_sandbox.Server.Backend.{Backend}
use cnr_sandbox.Server.Network.{Managed}
use cnr_sandbox.Server.Network.Handle.{SameHandle}
use cnr_sandbox.Server.Control.Base.{
  Server, run_on, managed, bootstrapped, handle_error, on_error, change_cluster, with_cluster,
  update_from, update_cluster_info, nodes_from, update_nodes, copy_network, copy_nodes, unhealthy,
  stop_and_remove_network, copy_of, respond, outer,
}

module _ (B : Backend) where
  unfoldable pub LivePair : Option (ServerNetwork B.Handle) → Option ClusterInfo → Type 0
  LivePair (some lc) (some info) = has_value lc.nw ≡ true
  LivePair (some lc) none = ⊥
  LivePair none info = ⊥

  unfoldable pub SoundPair : Option (ServerNetwork B.Handle) → Option ClusterInfo → Type 0
  SoundPair (some lc) (some info) = has_value lc.nw ≡ true
  SoundPair (some lc) none = ⊥
  SoundPair none (some info) = (info.healthy ≡ false) × (info.custom_chains_healthy ≡ false)
  SoundPair none none = Unit

  -- There is a network with its cluster information, and the network was created.
  unfoldable pub IsLive : Server B → Type 0
  unfolding LivePair
  IsLive s = LivePair s.network s.cluster_info

  -- A network has been created and has its cluster information; without a network the cluster
  -- information, where there is any, says that nothing is healthy.
  unfoldable pub IsSound : Server B → Type 0
  unfolding SoundPair
  IsSound s = SoundPair s.network s.cluster_info

  -- There is no network.
  unfoldable pub IsIdle : Server B → Type 0
  unfolding IsSound
  IsIdle s = IsSound s × (has_value s.network ≡ false)

  -- What holds after a call: `P` with a value, and a sound server with an error.
  unfoldable pub Leaves : {A : Type 0} → (Server B → Type 0) → Result A × Server B → Type 0
  unfolding IsSound
  Leaves P (ok a, t) = P t
  Leaves P (err e, t) = IsSound t
  Leaves P (crash m, t) = Unit

  abbrev pub Serves : {A : Type 0} → Result A × Server B → Type 0
  Serves x = Leaves IsLive x

  -- A call that comes back leaves a sound server.
  abbrev pub EndsSound : {A : Type 0} → Result A × Server B → Type 0
  EndsSound x = Leaves IsSound x

  -- The value of a call leaves `P`.
  unfoldable pub Gains : {A : Type 0} → (Server B → Type 0) → Result A × Server B → Type 0
  Gains P (ok a, t) = P t
  Gains P (err e, t) = Unit
  Gains P (crash m, t) = Unit
