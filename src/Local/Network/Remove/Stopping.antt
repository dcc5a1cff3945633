-- ===== src/Local/Network/Remove/Stopping.antt =====
-- `stop` and `Stop` of local/network.go: the nodes and the processes afterwards.
use cnr_sandbox.Base.{String, none, ◌≡◌, refl, [], ◌∷◌, arith, ap, ◌∙◌, eq_iff, if◌then◌else◌}
use cnr_sandbox.Base.Dict.{Dict, lookup, keys, NodupKeys, erase_of_absent}
use cnr_sandbox.World.{World}
use cnr_sandbox.Local.State.{LocalNode, System}
use cnr_sandbox.Local.Network.Remove.{remove_node, stop_nodes, stop}

module _ (W : World) where
  -- What stopping a node does outside: nothing for a paused one; else its client is closed and its
  -- process is stopped.
  abbrev halt : W.State → String × LocalNode W → W.State
  halt w e =
      if e.1.paused then w else (W.stop_process e.1.process (W.close_client e.1.api_port w)).1

  abbrev pub halt_all : Dict (LocalNode W) → W.State → W.State
  halt_all [] w = w
  halt_all (e ∷ d) w = halt_all d (halt w e)

  remove_first :
      (name : String) (node : LocalNode W) (d : Dict (LocalNode W)) (s : System W)
      → s.net.nodes ≡ (name, node) ∷ d
      → lookup name d ≡ none
      → ((remove_node W name s).1.net.nodes ≡ d)
        × ((remove_node W name s).1.world ≡ halt s.world (name, node))
  unfolding remove_node
  remove_first name node d s e fresh =
      rw e (ground (arith, eq_iff name name, erase_of_absent name d fresh))

  stop_nodes_lem :
      (d : Dict (LocalNode W)) (s : System W)
      → s.net.nodes ≡ d
      → NodupKeys d
      → ((stop_nodes W (keys d) s).1.net.nodes ≡ [])
        × ((stop_nodes W (keys d) s).1.world ≡ halt_all d s.world)
  unfolding stop_nodes
  stop_nodes_lem [] s e u = (e, refl)
  stop_nodes_lem ((name, node) ∷ d) s e u =
      let first = remove_first name node d s e u.0 in
      let rest = stop_nodes_lem d (remove_node W name s).1 first.0 u.1 in
      (rest.0, rest.1 ∙ ap (halt_all d) first.1)

  -- Where no name stands twice, stopping removes every node, whatever the processes exit with, and outside it stops each process that runs once, after closing its client, and does nothing else.
  pub stop_lem :
      (s : System W)
      → NodupKeys s.net.nodes
      → ((stop W s).1.net.nodes ≡ []) × ((stop W s).1.world ≡ halt_all s.net.nodes s.world)
  unfolding stop
  stop_lem s u = stop_nodes_lem s.net.nodes s refl u
