-- ===== src/Local/Network/Phases/Moves.antt =====
-- What adding, removing and pausing a node does to the view of the nodes.
use mathlib.Core.Path.{subst}
use cnr_sandbox.Base.{
  arith, eq_iff, String, ◌==◌, Bool, true, false, some, ◌≡◌, refl, sym, ap, ◌∙◌, ◌⊎◌, inl, inr,
  if◌then◌else◌, has_value, Option-cases,
}
use cnr_sandbox.Base.Dict.{lookup, lookup-insert}
use cnr_sandbox.Base.Exec.{
  Result, ok, Exec, pure, fail, err_stopped, ◌>>=◌, >>=-cases, Result-cases,
}
use cnr_sandbox.Config.{NodeConfig}
use cnr_sandbox.World.{World}
use cnr_sandbox.Local.State.{LocalNode, System}
use cnr_sandbox.Local.Network.Names.{is_paused_node}
use cnr_sandbox.Local.Network.Add.{add_node}
use cnr_sandbox.Local.Network.Add.Outcome.{add_node_outcome}
use cnr_sandbox.Local.Network.Remove.{
  remove_node, pause_node, remove_node_checked, pause_node_checked, unless_stopped,
}
use cnr_sandbox.Local.Network.Remove.Effects.{
  lookup-remove_node, lookup-pause_node, pause_node_failed,
}
use cnr_sandbox.Local.Network.Restart.{share_maps}
use cnr_sandbox.Local.Network.Load.{add_node_checked}
use cnr_sandbox.Local.Network.Phases.{
  running, View, Keeps, Starts, Drops, Pauses, add, remove, pause, Allowed, phase_of, view, perform,
}

module _ (W : World) where
  pub view-add_node :
      (c : NodeConfig) (s : System W)
      → Keeps (view W s) (view W (add_node W c s).1)
        ⊎ ((n : String) × Starts n (view W s) (view W (add_node W c s).1))
  unfolding view phase_of is_paused_node
  view-add_node c s = elim (add_node_outcome W c s) [
    | inl (failed, same) ↦ inl (λ j. rw same refl)
    | inr (node, was, ready, e) ↦ inr (
      node.name,
      (
        λ h. ground (arith, ready.replaces),
        λ j. rw e (ground (arith, ready.running, lookup-insert node.name j node s.net.nodes)),
      ),
    )
  ]

  pub view-remove_node :
      (n : String) (s : System W) → Drops n (view W s) (view W (remove_node W n s).1)
  unfolding view phase_of
  view-remove_node n s j = ground (arith, lookup-remove_node W n j s)

  runs_before :
      (n : String) (s : System W) → (pause_node W n s).0 ≡ ok tt → view W s n ≡ some running
  unfolding view phase_of pause_node
  runs_before n s h = elim (Option-cases (lookup n s.net.nodes)) [
    | inl missing ↦ cc
    | inr (node, found) ↦ ground arith
  ]

  found_before :
      (n : String) (s : System W)
      → (pause_node W n s).0 ≡ ok tt
      → has_value (lookup n s.net.nodes) ≡ true
  unfolding pause_node
  found_before n s h = elim (Option-cases (lookup n s.net.nodes)) [
    | inl missing ↦ cc
    | inr (node, found) ↦ ground arith
  ]

  view-pause_node :
      (n : String) (s : System W)
      → Keeps (view W s) (view W (pause_node W n s).1)
        ⊎ Pauses n (view W s) (view W (pause_node W n s).1)
  unfolding view phase_of
  view-pause_node n s = elim (Result-cases (pause_node W n s).0) [
    | inr failed ↦ inl (λ j. rw (pause_node_failed W n s failed) refl)
    | inl (x, done) ↦ inr (
      runs_before n s done,
      λ j. ground (arith, lookup-pause_node W n j s done, eq_iff n j, found_before n s done),
    )
  ]

  -- A block that only drops a value leaves the state of its first step.
  pub state_before :
      {A : Type 0} (m : Exec (System W) A) (s : System W) → ((m >>= λ a. pure tt) s).1 ≡ (m s).1
  state_before m s = elim (>>=-cases m (λ a. pure {S = System W} tt) s) [
    | inl (a, e, r) ↦ ap (λ (x : Result (Unit {0}) × System W). x.1) r
    | inr (failed, same) ↦ same
  ]

  -- Nothing happens on a stopped network.
  guarded :
      {A : Type 0} (P : System W → Type 0) (b : Bool) (m : Exec (System W) A) (s : System W)
      → P s
      → P (m s).1
      → P (if b then fail err_stopped s else m s).1
  guarded P true m s p q = p
  guarded P false m s p q = q

  pub Allowed-add :
      (c : NodeConfig) (s : System W) → Allowed (add c) (view W s) (view W (perform W (add c) s).1)
  unfolding perform
  Allowed-add c s =
      let P : System W → Type 0 = λ t. Allowed (add c) (view W s) (view W t) in
      subst P (sym (state_before (add_node_checked W c) s)) (
        unfold add_node_checked in
        guarded P s.net.stop_called (add_node W c) s (inl (λ j. refl)) (view-add_node c s))

  pub Allowed-remove :
      (n : String) (s : System W)
      → Allowed (remove n) (view W s) (view W (perform W (remove n) s).1)
  unfolding perform remove_node_checked unless_stopped
  Allowed-remove n s =
      guarded (λ t. Allowed (remove n) (view W s) (view W t)) s.net.stop_called (remove_node W n) s
        (inl (λ j. refl)) (inr (view-remove_node n s))

  pub Allowed-pause :
      (n : String) (s : System W) → Allowed (pause n) (view W s) (view W (perform W (pause n) s).1)
  unfolding perform pause_node_checked unless_stopped
  Allowed-pause n s =
      guarded (λ t. Allowed (pause n) (view W s) (view W t)) s.net.stop_called (pause_node W n) s
        (inl (λ j. refl)) (view-pause_node n s)

  -- The writes to shared maps do not show.
  pub view-share_maps :
      (name : String) (node : LocalNode W) (c : NodeConfig) (s : System W)
      → lookup name s.net.nodes ≡ some node
      → Keeps (view W s) (view W (share_maps W name node c s).1)
  unfolding view phase_of share_maps
  view-share_maps name node c s found j =
      let shared : LocalNode W = record node {
        config = record node.config {
          flags = c.flags;
          chain_config_files = c.chain_config_files;
          upgrade_config_files = c.upgrade_config_files;
          subnet_config_files = c.subnet_config_files;
        };
      } in
      ground (arith, lookup-insert name j shared s.net.nodes, eq_iff name j)

  Starts-share : (n : String) (f g h : View) → Keeps f g → Starts n g h → Starts n f h
  Starts-share n f g h same (free, e) =
      (λ x. free (same n ∙ x), λ j. e j ∙ ap (λ x. if n == j then some running else x) (same j))

  -- After writes to shared maps, another node may be added.
  pub after_share :
      (name : String) (node : LocalNode W) (d c : NodeConfig) (s : System W)
      → lookup name s.net.nodes ≡ some node
      → (let t = (add_node W c (share_maps W name node d s).1).1 in
          Keeps (view W s) (view W t) ⊎ ((m : String) × Starts m (view W s) (view W t)))
  after_share name node d c s found =
      let u = (share_maps W name node d s).1 in
      let same = view-share_maps name node d s found in
      elim (view-add_node c u) [
        | inl kept ↦ inl (λ j. kept j ∙ same j)
        | inr (m, started) ↦ inr (m, Starts-share m (view W s) (view W u) _ same started)
      ]
