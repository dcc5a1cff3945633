-- ===== src/Local/Network/Load/Failure.antt =====
-- `loadConfig` of local/network.go where a node cannot be added.
use cnr_sandbox.Base.{◌≡◌, refl, List, [], ◌∷◌}
use cnr_sandbox.Base.Dict.{NodupKeys}
use cnr_sandbox.Base.Exec.{Result, Error, Exec, lift, ◌>>=◌, wrapping, ok, err, crash}
use cnr_sandbox.Config.{NodeConfig, NetworkConfig}
use cnr_sandbox.Config.Validate.{validate, network_id_from_genesis}
use cnr_sandbox.World.{World}
use cnr_sandbox.Local.State.{LocalNode, System}
use cnr_sandbox.Local.Network.Add.{add_node}
use cnr_sandbox.Local.Network.Add.Outcome.{add_node-NodupKeys}
use cnr_sandbox.Local.Network.Remove.Stopping.{stop_lem}
use cnr_sandbox.Local.Network.Load.{
  add_nodes, after_add, start_order, load_config, modify_net, save_defaults,
}

module _ (W : World) where
  after_add_failed :
      (c : NodeConfig) (r : Result (LocalNode W)) (rest : Exec (System W) (Unit {0})) (t : System W)
      → NodupKeys t.net.nodes
      → (e : Error) → ((rest t).0 ≡ err e → (rest t).1.net.nodes ≡ [])
      → (after_add W c r rest t).0 ≡ err e
      → (after_add W c r rest t).1.net.nodes ≡ []
  unfolding after_add
  after_add_failed c (ok node) rest t u e k h = k h
  after_add_failed c (err x) rest t u e k h = (stop_lem W t u).0
  after_add_failed c (crash m) rest t u e k h = cc

  -- When a node cannot be added, every node that was added before, or was there, is stopped and removed.
  add_nodes_failed :
      (cs : List NodeConfig) (s : System W)
      → NodupKeys s.net.nodes
      → (e : Error) → (add_nodes W cs s).0 ≡ err e
      → (add_nodes W cs s).1.net.nodes ≡ []
  unfolding add_nodes after_add
  add_nodes_failed [] s u e h = cc
  add_nodes_failed (c ∷ cs) s u e h =
      let t = (add_node W c s).1 in
      let kept = add_node-NodupKeys W c s u in
      after_add_failed c (add_node W c s).0 (add_nodes W cs) t kept e (add_nodes_failed cs t kept e)
        h

  -- An error means that the network has no node.
  abbrev EmptyOnError : {A : Type 0} → Result A × System W → Type 0
  EmptyOnError (ok a, t) = Unit
  EmptyOnError (err e, t) = t.net.nodes ≡ []
  EmptyOnError (crash m, t) = Unit

  EmptyOnError-lift :
      {A B : Type 0} (r : Result A) (f : A → Exec (System W) B) (t : System W)
      → t.net.nodes ≡ []
      → ((a : A) → EmptyOnError (f a t))
      → EmptyOnError ((lift r >>= f) t)
  EmptyOnError-lift (ok a) f t h k = k a
  EmptyOnError-lift (err e) f t h k = h
  EmptyOnError-lift (crash m) f t h k = tt

  EmptyOnError-eq :
      {A : Type 0} (x : Result A × System W)
      → ((e : Error) → x.0 ≡ err e → x.1.net.nodes ≡ [])
      → EmptyOnError x
  EmptyOnError-eq (ok a, t) h = tt
  EmptyOnError-eq (err e, t) h = h e refl
  EmptyOnError-eq (crash m, t) h = tt

  error_of :
      {A : Type 0} (r : Result A) (t : System W) (e : Error)
      → EmptyOnError (r, t)
      → r ≡ err e
      → t.net.nodes ≡ []
  error_of (ok a) t e h p = cc
  error_of (err x) t e h p = h
  error_of (crash m) t e h p = cc

  load_config-EmptyOnError :
      (c : NetworkConfig) (s : System W) → s.net.nodes ≡ [] → EmptyOnError (load_config W c s)
  unfolding load_config modify_net save_defaults
  load_config-EmptyOnError c s h =
      EmptyOnError-lift (wrapping "config failed validation" (validate W c)) _ s h λ _.
        let t : System W = record s { net = record s.net { genesis = c.genesis } } in
        EmptyOnError-lift
          (wrapping "couldn't get network ID from genesis" (network_id_from_genesis W c.genesis)) _
          t h
          λ id.
            let u : System W = record t {
              net = save_defaults W c (record t.net { network_id = id });
            } in
            EmptyOnError-eq (add_nodes W (start_order c.node_configs) u)
              (add_nodes_failed (start_order c.node_configs) u (rw h tt))

  -- A new network whose config cannot be loaded, because it is not valid or because a node does not start, is left without a node: those that were started are stopped and removed.
  pub load_config_failed :
      (c : NetworkConfig) (s : System W) (e : Error)
      → s.net.nodes ≡ []
      → (load_config W c s).0 ≡ err e
      → (load_config W c s).1.net.nodes ≡ []
  load_config_failed c s e h p =
      error_of (load_config W c s).0 (load_config W c s).1 e (load_config-EmptyOnError c s h) p
