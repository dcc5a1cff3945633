-- ===== src/Local/Network/Names/Unique.antt =====
-- `setNodeName` of local/network.go and the nodes that are there.
use mathlib.Core.Path.{subst₂}
use cnr_sandbox.Base.{
  sym, if◌then◌else◌, ℕ, refl, false, not, ◌&&◌, Option, none, some, ◌≡◌, arith, ◌==◌, has_value,
  length, suc,
}
use cnr_sandbox.Base.Dict.{lookup}
use cnr_sandbox.Base.Exec.{Exec, pure, ok, >>=-eq-ok}
use cnr_sandbox.Config.{NodeConfig}
use cnr_sandbox.World.{World}
use cnr_sandbox.Local.State.{LocalNetwork, System}
use cnr_sandbox.Local.Network.Names.{
  fresh_suffix, is_paused_node, assign_name, check_unique, set_node_name,
}

module _ (W : World) where
  -- No node of the network that runs has the name.
  abbrev pub IsAvailable : LocalNetwork W → NodeConfig → Type 0
  IsAvailable ln c =
      (has_value (lookup c.name ln.nodes) && not (is_paused_node W ln c.name)) ≡ false

  check_unique_lem :
      (c c' : NodeConfig) (s t : System W)
      → check_unique W c s ≡ (ok c', t)
      → (c' ≡ c) × (t ≡ s) × IsAvailable s.net c
  unfolding check_unique
  check_unique_lem c c' s t h = ground arith

  assign_name-nodes :
      (c : NodeConfig) (o : Option ℕ) (s : System W)
      → (assign_name W c o s).1.net.nodes ≡ s.net.nodes
  unfolding assign_name
  assign_name-nodes c none s = refl
  assign_name-nodes c (some k) s = refl

  pub nodes-set_node_name :
      (c : NodeConfig) (s : System W) → (set_node_name W c s).1.net.nodes ≡ s.net.nodes
  unfolding set_node_name
  nodes-set_node_name c s = ground arith

  pub set_node_name-IsAvailable :
      (c c' : NodeConfig) (s t : System W) → set_node_name W c s ≡ (ok c', t) → IsAvailable t.net c'
  unfolding set_node_name
  set_node_name-IsAvailable c c' s t h =
      let found = fresh_suffix W (suc (length s.net.nodes)) s.net.nodes s.net.next_node_suffix in
      let naming : Exec (System W) NodeConfig =
        if c.name == "" then assign_name W c found else pure c in
      let (named, u, e, h') = >>=-eq-ok naming (check_unique W) s h in
      let checked = check_unique_lem named c' u t h' in
      subst₂ (λ x y. IsAvailable x.net y) (sym checked.1) (sym checked.0) checked.2
