-- ===== src/Server/Calls.antt =====
-- The calls that the server of server/server.go answers, in any order, and what else happens to it:
-- the goroutine of LoadSnapshot that waits and that ends, a round of WaitForHealthy, a change outside the server.
use cnr_sandbox.Base.{ℕ, String, Bool, Option, List}
use cnr_sandbox.Base.Exec.{Error, Result, ok, err, crash, Exec}
use cnr_sandbox.Config.{RestartOptions}
use cnr_sandbox.Server.State.{BlockchainRequest, SubnetRequest}
use cnr_sandbox.Server.Backend.{Backend}
use cnr_sandbox.Server.Control
use cnr_sandbox.Server.Control.{StartRequest}
use cnr_sandbox.Server.Control.Base.{Server}
use cnr_sandbox.Server.Nodes
use cnr_sandbox.Server.Nodes.{AddNodeRequest}
use cnr_sandbox.Server.Snapshots
use cnr_sandbox.Server.Snapshots.{LoadRequest, await_loaded, finish_load, wait_round}

module _ (B : Backend) where
  pub data Call : Type 0 where
    start : StartRequest → Call
    create_blockchains : List BlockchainRequest → Call
    create_subnets : List SubnetRequest → Call
    health uris status stop get_snapshot_names : Call
    add_node : AddNodeRequest → Call
    remove_node pause_node resume_node : String → Call
    restart_node : RestartOptions → String → Call
    attach_peer : String → Call
    send_outbound_message : String → String → String → ℕ → Call
    load_snapshot : LoadRequest → Call
    save_snapshot remove_snapshot : String → Call
    awaited : Call
    loaded : Option Error → Call
    wait_for_healthy : Bool → Bool → Call
    elsewhere : B.State → Call

  -- The outcome without the answer.
  unfoldable pub outcome : {A : Type 0} → Result A × Server B → Result (Unit {0}) × Server B
  outcome (ok a, t) = (ok tt, t)
  outcome (err e, t) = (err e, t)
  outcome (crash m, t) = (crash m, t)

  unfoldable pub serve : Call → Exec (Server B) (Unit {0})
  unfolding outcome
  serve (start r) s = outcome (Control.start B r s)
  serve (create_blockchains r) s = outcome (Control.create_blockchains B r s)
  serve (create_subnets r) s = outcome (Control.create_subnets B r s)
  serve health s = outcome (Nodes.health B s)
  serve uris s = outcome (Nodes.uris B s)
  serve status s = outcome (Nodes.status B s)
  serve stop s = outcome (Control.stop B s)
  serve get_snapshot_names s = outcome (Snapshots.get_snapshot_names B s)
  serve (add_node r) s = outcome (Nodes.add_node B r s)
  serve (remove_node name) s = outcome (Nodes.remove_node B name s)
  serve (pause_node name) s = outcome (Nodes.pause_node B name s)
  serve (resume_node name) s = outcome (Nodes.resume_node B name s)
  serve (restart_node o name) s = outcome (Nodes.restart_node B o name s)
  serve (attach_peer name) s = outcome (Nodes.attach_peer B name s)
  serve (send_outbound_message name peer bytes op) s =
      outcome (Nodes.send_outbound_message B name peer bytes op s)
  serve (load_snapshot r) s = outcome (Snapshots.load_snapshot B r s)
  serve (save_snapshot name) s = outcome (Snapshots.save_snapshot B name s)
  serve (remove_snapshot name) s = outcome (Snapshots.remove_snapshot B name s)
  serve awaited s = outcome (await_loaded B s)
  serve (loaded e) s = outcome (finish_load B e s)
  serve (wait_for_healthy late late_first) s = (ok tt, (wait_round B late late_first s).1)
  serve (elsewhere o) s = (ok tt, record s { outer = o })

  -- The server does not panic.
  unfoldable pub Survives : {A : Type 0} → Result A → Type 0
  Survives (ok a) = Unit
  Survives (err e) = Unit
  Survives (crash m) = ⊥

  -- The states that calls lead to, one after the other.
  pub data Reaches (s : Server B) : Server B → Type 0 where
    here : Reaches s s
    then :
        (t : Server B) (c : Call) → Reaches s t → Survives (serve c t).0 → Reaches s (serve c t).1
