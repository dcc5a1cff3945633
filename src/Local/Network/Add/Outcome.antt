-- ===== src/Local/Network/Add/Outcome.antt =====
-- What `addNode` of local/network.go leaves in the network, on every path.
use mathlib.Core.Path.{subst}
use cnr_sandbox.Base.{
  String, Bool, false, some, ◌≡◌, refl, sym, ap, ◌∙◌, ◌⊎◌, inl, inr, arith, eq_iff, has_value,
}
use cnr_sandbox.Base.Dict.{lookup, insert, lookup-insert, NodupKeys, insert-NodupKeys}
use cnr_sandbox.Base.Exec.{
  Result, ok, Exec, pure, get, ◌>>=◌, Fails, IsPreorder, Within, within_rules, ok_injective, Gives,
  gives_rules, >>=-cases, >>=-eq-ok,
}
use cnr_sandbox.Config.{NodeConfig}
use cnr_sandbox.World.{World}
use cnr_sandbox.Local.State.{LocalNode, LocalNetwork, System, outside}
use cnr_sandbox.Local.Network.Names.{is_paused_node, set_node_name}
use cnr_sandbox.Local.Network.Names.Unique.{
  IsAvailable, nodes-set_node_name, set_node_name-IsAvailable,
}
use cnr_sandbox.Local.Network.Add.{
  with_defaults, ensure_cert, ensure_signing_key, launch, register, prepare, add_node,
}

module _ (W : World) where
  -- The nodes are as they were.
  abbrev SameNodes : System W → System W → Type 0
  SameNodes s t = t.net.nodes ≡ s.net.nodes

  SameNodes-order : IsPreorder SameNodes
  SameNodes-order = record { reflexive = λ s. refl; transitive = λ s t u p q. q ∙ p }

  get-SameNodes : Within SameNodes (get {S = System W})
  get-SameNodes = record { at = λ s. refl }

  outside-SameNodes : {A : Type 0} (m : Exec W.State A) → Within SameNodes (outside W m)
  outside-SameNodes m = record { at = λ s. refl }

  set_node_name-SameNodes : (c : NodeConfig) → Within SameNodes (set_node_name W c)
  set_node_name-SameNodes c = record { at = nodes-set_node_name W c }

  ruleset same_nodes =
      (within_rules, SameNodes-order, get-SameNodes, outside-SameNodes, set_node_name-SameNodes)

  launch-SameNodes : (c : NodeConfig) → Within SameNodes (launch W c)
  unfolding launch
  launch-SameNodes c = search same_nodes depth 12

  ensure_cert-Within : (c : NodeConfig) → Within SameNodes (outside W (ensure_cert W c))
  ensure_cert-Within c = outside-SameNodes (ensure_cert W c)

  prepare-SameNodes : (c : NodeConfig) → Within SameNodes (prepare W c)
  unfolding prepare
  prepare-SameNodes c = search (same_nodes, launch-SameNodes) depth 12

  abbrev IsNew : NodeConfig → LocalNode W → Type 0
  IsNew c node = (node.name ≡ c.name) × (node.paused ≡ false)

  launch-Gives : (c : NodeConfig) → Gives (IsNew c) (launch W c)
  unfolding launch
  launch-Gives c = search gives_rules depth 12

  -- The node that is launched has the config's name, and it is not paused.
  launch_lem :
      (c : NodeConfig) (s t : System W) (node : LocalNode W)
      → launch W c s ≡ (ok node, t)
      → (node.name ≡ c.name) × (node.paused ≡ false)
  launch_lem c s t node h = (launch-Gives c).at s t node h

  -- A prepared node: its name belongs to no node that runs, and the flag says if it belongs to one
  -- that is paused.
  pub record IsPrepared (ln : LocalNetwork W) (node : LocalNode W) (was_paused : Bool)
      : Type 0 where
    pub running : node.paused ≡ false
    pub replaces : has_value (lookup node.name ln.nodes) ≡ is_paused_node W ln node.name
    pub flagged : was_paused ≡ is_paused_node W ln node.name

  available_replaces :
      (ln : LocalNetwork W) (c : NodeConfig)
      → IsAvailable W ln c
      → has_value (lookup c.name ln.nodes) ≡ is_paused_node W ln c.name
  unfolding is_paused_node
  available_replaces ln c h = ground arith

  IsPrepared-of :
      (ln ln' : LocalNetwork W) (c : NodeConfig) (node : LocalNode W)
      → ln'.nodes ≡ ln.nodes
      → IsAvailable W ln' c
      → IsNew c node
      → IsPrepared ln node (is_paused_node W ln' c.name)
  unfolding is_paused_node
  IsPrepared-of ln ln' c node same available new = record {
    running = new.1;
    replaces = rw (new.0, ← same) (available_replaces ln' c available);
    flagged = rw (new.0, same) refl;
  }

  -- The part of `prepare` after the keys are complete.
  abbrev finish : NodeConfig → Exec (System W) (LocalNode W × Bool)
  finish complete = do
    c ← set_node_name W complete
    t ← get
    node ← launch W c
    pure (node, is_paused_node W t.net c.name)

  finish_lem :
      (complete : NodeConfig) (s t : System W) (p : LocalNode W × Bool)
      → finish complete s ≡ (ok p, t)
      → IsPrepared s.net p.0 p.1
  finish_lem complete s t p h =
      let tail = λ (u : System W) (c : NodeConfig) (node : LocalNode W).
        pure {S = System W} (node, is_paused_node W u.net c.name) in
      let (c, u, e, h1) =
        >>=-eq-ok (set_node_name W complete) (λ c. get >>= λ u. launch W c >>= tail u c) s h in
      let (node, v, e', h2) = >>=-eq-ok (launch W c) (tail u c) u h1 in
      let same =
        ap (λ (x : Result NodeConfig × System W). x.1.net.nodes) (sym e)
        ∙ nodes-set_node_name W complete s in
      let available = set_node_name-IsAvailable W complete c s u e in
      let made = IsPrepared-of s.net u.net c node same available (launch_lem c u v node e') in
      subst (λ (q : LocalNode W × Bool). IsPrepared s.net q.0 q.1)
        (ok_injective (ap (λ (x : Result (LocalNode W × Bool) × System W). x.0) h2)) made

  prepare_lem :
      (c : NodeConfig) (s t : System W) (p : LocalNode W × Bool)
      → prepare W c s ≡ (ok p, t)
      → (t.net.nodes ≡ s.net.nodes) × IsPrepared s.net p.0 p.1
  unfolding prepare
  prepare_lem c s t p h =
      let with_keys =
        λ (u : System W) (d : NodeConfig). outside W (ensure_signing_key W d) >>= finish in
      let (d, u, e, h1) =
        >>=-eq-ok (outside W (ensure_cert W (with_defaults W s.net c))) (with_keys s) s h in
      let (d', v, e', h2) = >>=-eq-ok (outside W (ensure_signing_key W d)) finish u h1 in
      let net_u = ap (λ (x : Result NodeConfig × System W). x.1.net) (sym e) in
      let net_v = ap (λ (x : Result NodeConfig × System W). x.1.net) (sym e') in
      let same = ap (λ (x : Result (LocalNode W × Bool) × System W). x.1.net.nodes) (sym h) in
      (
        same ∙ (prepare-SameNodes c).at s,
        subst (λ ln. IsPrepared ln p.0 p.1) (net_v ∙ net_u) (finish_lem d' v t p h2),
      )

  nodes-register :
      (node : LocalNode W) (was_paused : Bool) (s : System W)
      → (register W node was_paused s).1.net.nodes ≡ insert node.name node s.net.nodes
  unfolding register
  nodes-register node was_paused s = ground arith

  -- Adding a node either fails before the node enters the network and leaves the nodes as they were, or puts a node that is not paused among them under its name, which no node that runs had before.
  pub add_node_outcome :
      (c : NodeConfig) (s : System W)
      → (Fails (add_node W c s).0 × ((add_node W c s).1.net.nodes ≡ s.net.nodes))
        ⊎ ((node : LocalNode W) × (was_paused : Bool) × IsPrepared s.net node was_paused
            × ((add_node W c s).1.net.nodes ≡ insert node.name node s.net.nodes))
  unfolding add_node
  add_node_outcome c s =
      let enter = λ (p : LocalNode W × Bool). register W p.0 p.1 in
      let kept = (prepare-SameNodes c).at s in
      elim (>>=-cases (prepare W c) enter s) [
        | inl (p, e, r) ↦
            let ready = prepare_lem c s (prepare W c s).1 p e in
            inr (
              p.0,
              p.1,
              ready.1,
              ap (λ (x : Result (LocalNode W) × System W). x.1.net.nodes) r
                  ∙ nodes-register p.0 p.1 (prepare W c s).1
                  ∙ ap (insert p.0.name p.0) kept,
            )
        | inr (failed, same) ↦ inl (failed, ap (λ (x : System W). x.net.nodes) same ∙ kept)
      ]

  -- A node that runs is still there, unchanged, after another is added, whether that succeeds or not.
  pub add_node_keeps_running :
      (c : NodeConfig) (s : System W) (j : String) (n : LocalNode W)
      → lookup j s.net.nodes ≡ some n
      → n.paused ≡ false
      → lookup j (add_node W c s).1.net.nodes ≡ some n
  unfolding is_paused_node
  add_node_keeps_running c s j n found running = elim (add_node_outcome c s) [
    | inl (failed, same) ↦ rw same found
    | inr (node, was, ready, e) ↦ rw e (
        ground
          (arith, ready.replaces, lookup-insert node.name j node s.net.nodes, eq_iff node.name j))
  ]

  -- Where no name stands twice among the nodes, none does after a node is added, whether that succeeds or not.
  pub add_node-NodupKeys :
      (c : NodeConfig) (s : System W)
      → NodupKeys s.net.nodes
      → NodupKeys (add_node W c s).1.net.nodes
  add_node-NodupKeys c s u = elim (add_node_outcome c s) [
    | inl (failed, same) ↦ rw same u
    | inr (node, was, ready, e) ↦ rw e (insert-NodupKeys node.name node s.net.nodes u)
  ]
