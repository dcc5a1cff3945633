-- ===== src/Local/Network/Remove/Effects.antt =====
-- What `removeNode` and `pauseNode` of local/network.go leave in the network.
use cnr_sandbox.Base.{
  String, true, none, some, ◌≡◌, arith, ◌==◌, eq_iff, if◌then◌else◌, map_some, Option-cases, inl,
  inr,
}
use cnr_sandbox.Base.Dict.{lookup, lookup-insert, lookup-insert_self, lookup-erase}
use cnr_sandbox.Base.Exec.{ok, err, already_paused, Fails}
use cnr_sandbox.World.{World}
use cnr_sandbox.Local.State.{LocalNode, System}
use cnr_sandbox.Local.Network.Remove.{remove_node, pause_node}

module _ (W : World) where
  -- A node is gone after its removal, also where its process exits with an error; the other nodes are as before.
  pub lookup-remove_node :
      (name j : String) (s : System W)
      → lookup j (remove_node W name s).1.net.nodes
        ≡ (if name == j then none else lookup j s.net.nodes)
  unfolding remove_node
  lookup-remove_node name j s = ground (arith, lookup-erase name j s.net.nodes, eq_iff name j)

  -- Removing a node without a process, that is a paused one, always succeeds and touches nothing
  -- outside the network.
  remove_node_paused :
      (name : String) (s : System W) (node : LocalNode W)
      → lookup name s.net.nodes ≡ some node
      → node.paused ≡ true
      → ((remove_node W name s).0 ≡ ok tt) × ((remove_node W name s).1.world ≡ s.world)
  unfolding remove_node
  remove_node_paused name s node found paused = ground arith

  -- A pause that succeeds marks its node as paused and changes no other.
  pub lookup-pause_node :
      (name j : String) (s : System W)
      → (pause_node W name s).0 ≡ ok tt
      → lookup j (pause_node W name s).1.net.nodes ≡ (
          if name == j
          then map_some {A = LocalNode W} (λ n. record n { paused = true }) (lookup j s.net.nodes)
          else lookup j s.net.nodes)
  unfolding pause_node
  lookup-pause_node name j s h = elim (Option-cases (lookup name s.net.nodes)) [
    | inl missing ↦ cc
    | inr (node, found) ↦
        ground
          (arith, eq_iff name j, lookup-insert name j (record node { paused = true }) s.net.nodes)
  ]

  -- A pause that fails changes nothing in the network.
  pub pause_node_failed :
      (name : String) (s : System W)
      → Fails (pause_node W name s).0
      → (pause_node W name s).1.net ≡ s.net
  unfolding pause_node
  pause_node_failed name s h = ground arith

  -- After a pause that succeeded, pausing the same node again fails with `already_paused` and changes nothing.
  pause_node_twice :
      (name : String) (s : System W)
      → (pause_node W name s).0 ≡ ok tt
      → pause_node W name (pause_node W name s).1 ≡ (err already_paused, (pause_node W name s).1)
  unfolding pause_node
  pause_node_twice name s h = elim (Option-cases (lookup name s.net.nodes)) [
    | inl missing ↦ cc
    | inr (node, found) ↦
        ground (arith, lookup-insert_self name (record node { paused = true }) s.net.nodes)
  ]
