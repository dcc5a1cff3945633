-- ===== src/Local/Network/Phases.antt =====
-- The nodes of a network by what they are doing: none under a name, one that runs, or one that is
-- paused; and what the operations of local/network.go may do to that view.
pub mod Moves
pub mod Refines
use cnr_sandbox.Base.{String, ◌==◌, Option, none, some, List, [], ◌∷◌, ◌≡◌, ◌≢◌, ◌⊎◌, if◌then◌else◌}
use cnr_sandbox.Base.Dict.{lookup}
use cnr_sandbox.Base.Exec.{Exec, pure, ◌>>=◌}
use cnr_sandbox.Config.{NodeConfig, RestartOptions}
use cnr_sandbox.World.{World}
use cnr_sandbox.Local.State.{LocalNode, System}
use cnr_sandbox.Local.Network.Remove.{remove_node_checked, pause_node_checked}
use cnr_sandbox.Local.Network.Restart.{resume_node, restart_node}
use cnr_sandbox.Local.Network.Load.{add_node_checked}

pub data Phase : Type 0 where
  running paused : Phase

abbrev pub View : Type 0
View = String → Option Phase

-- The four ways in which a view may change.
abbrev pub Keeps : View → View → Type 0
Keeps f g = (j : String) → g j ≡ f j

-- A node runs under a name under which none ran before.
abbrev pub Starts : String → View → View → Type 0
Starts n f g = (f n ≢ some running) × ((j : String) → g j ≡ (if n == j then some running else f j))

abbrev pub Drops : String → View → View → Type 0
Drops n f g = (j : String) → g j ≡ (if n == j then none else f j)

-- A node that runs is paused.
abbrev pub Pauses : String → View → View → Type 0
Pauses n f g = (f n ≡ some running) × ((j : String) → g j ≡ (if n == j then some paused else f j))

-- The methods of `Network` that change which nodes there are.
pub data Operation : Type 0 where
  add : NodeConfig → Operation
  remove pause resume : String → Operation
  restart : RestartOptions → String → Operation

-- What an operation may do, whether it succeeds or fails.
abbrev pub Allowed : Operation → View → View → Type 0
Allowed (add c) f g = Keeps f g ⊎ ((n : String) × Starts n f g)
Allowed (remove n) f g = Keeps f g ⊎ Drops n f g
Allowed (pause n) f g = Keeps f g ⊎ Pauses n f g
Allowed (resume n) f g = Keeps f g ⊎ ((f n ≡ some paused) × (m : String) × Starts m f g)
Allowed (restart o n) f g =
    Keeps f g
    ⊎ ((f n ≢ none)
        × (Drops n f g ⊎ ((h : View) × (m : String) × (Keeps f h ⊎ Drops n f h) × Starts m h g)))

-- A run on views.
abbrev pub Runs : List Operation → View → View → Type 0
Runs [] f g = Keeps f g
Runs (op ∷ ops) f g = (h : View) × Allowed op f h × Runs ops h g

module _ (W : World) where
  phase_of : Option (LocalNode W) → Option Phase
  phase_of none = none
  phase_of (some node) = some (if node.paused then paused else running)

  -- What a network shows of its nodes.
  unfoldable pub view : System W → View
  unfolding phase_of lookup
  view s name = phase_of (lookup name s.net.nodes)

  unfoldable pub perform : Operation → Exec (System W) (Unit {0})
  unfolding add_node_checked remove_node_checked pause_node_checked resume_node restart_node
  perform (add c) = add_node_checked W c >>= λ node. pure tt
  perform (remove n) = remove_node_checked W n
  perform (pause n) = pause_node_checked W n
  perform (resume n) = resume_node W n
  perform (restart o n) = restart_node W o n

  -- The state after a run, in which operations may fail.
  unfoldable pub run : List Operation → System W → System W
  unfolding perform
  run [] s = s
  run (op ∷ ops) s = run ops (perform op s).1
