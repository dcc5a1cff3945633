-- ===== src/Local/Health.antt =====
-- `healthy` of local/network.go: a goroutine for each node that is not paused, in an errgroup. The
-- steps are those of single goroutines; `schedule` of Local/Ledger says which comes next.
pub mod Steps
pub mod Found
pub mod Ending
use cnr_sandbox.Base.{
  String, ◌<>◌, Bool, true, false, Option, none, some, List, [], ◌∷◌, if◌then◌else◌, first_some,
  ◌&&◌,
}
use cnr_sandbox.Base.Dict.{Dict, lookup, insert}
use cnr_sandbox.Base.Exec.{Error, Result, ok, err, crash, Exec, fail, err_stopped, message}
use cnr_sandbox.World.{World}
use cnr_sandbox.Local.State.{LocalNode, System}
use cnr_sandbox.Local.Ledger.{
  Look, exited, well, unwell, HealthEvent, looked, ticked, gave_up, expired, Ledger,
}

-- Where a goroutine stands: before the check of its node, in its `select`, or returned.
pub data Member : Type 0 where
  looking waiting finished : Member
  failed : Error → Member

-- The goroutines under the names of their nodes, the error that the errgroup keeps, and whether the
-- context is done.
pub record HealthCheck : Type 0 where
  pub members : Dict Member
  pub first_error : Option Error
  pub cancelled : Bool

unfoldable pub set_member : String → Member → HealthCheck → HealthCheck
unfolding insert
set_member name m c = record c { members = insert name m c.members }

-- A goroutine returns an error: the errgroup keeps the first one and cancels the context.
unfoldable pub fail_member : String → Error → HealthCheck → HealthCheck
unfolding set_member
fail_member name e c = record (set_member name (failed e) c) {
  first_error = first_some c.first_error (some e);
  cancelled = true;
}

abbrev pub stopped_unexpectedly : String → Error
stopped_unexpectedly name = message ("node stopped unexpectedly: " <> name)

abbrev pub not_healthy_in_time : String → Error
not_healthy_in_time name =
    message ("node failed to become healthy within timeout, or network stopped: " <> name)

look_at : String → Look → Option Member → HealthCheck → HealthCheck
unfolding set_member fail_member
look_at name exited (some looking) c = fail_member name (stopped_unexpectedly name) c
look_at name well (some looking) c = set_member name finished c
look_at name unwell (some looking) c = set_member name waiting c
look_at name look m c = c

tick : String → Option Member → HealthCheck → HealthCheck
unfolding set_member
tick name (some waiting) c = set_member name looking c
tick name m c = c

give_up : String → Option Member → HealthCheck → HealthCheck
unfolding fail_member
give_up name (some waiting) c =
    if c.cancelled then fail_member name (not_healthy_in_time name) c else c
give_up name m c = c

-- One step; an event that cannot happen changes nothing.
unfoldable pub health_step : HealthEvent → HealthCheck → HealthCheck
unfolding look_at tick give_up lookup
health_step (looked name look) c = look_at name look (lookup name c.members) c
health_step (ticked name) c = tick name (lookup name c.members) c
health_step (gave_up name) c = give_up name (lookup name c.members) c
health_step expired c = record c { cancelled = true }

unfoldable pub run_check : List HealthEvent → HealthCheck → HealthCheck
unfolding health_step
run_check [] c = c
run_check (e ∷ es) c = run_check es (health_step e c)

abbrev pub has_ended : Member → Bool
has_ended looking = false
has_ended waiting = false
has_ended finished = true
has_ended (failed e) = true

unfoldable pub all_ended : Dict Member → Bool
all_ended [] = true
all_ended ((name, m) ∷ ms) = has_ended m && all_ended ms

-- `Wait` of the errgroup.
unfoldable pub wait_result : HealthCheck → Result (Unit {0})
unfolding all_ended
wait_result c =
    let found : Result (Unit {0}) = elim c.first_error [ none ↦ ok tt | some e ↦ err e ] in
    if all_ended c.members then found else crash "goroutines still run"

module _ (W : World) where
  -- No goroutine for a paused node.
  unfoldable pub checked_members : Dict (LocalNode W) → Dict Member
  checked_members [] = []
  checked_members ((name, node) ∷ nodes) =
      let rest = checked_members nodes in if node.paused then rest else (name, looking) ∷ rest

  unfoldable pub start_check : Dict (LocalNode W) → HealthCheck
  unfolding checked_members
  start_check nodes = record {
    members = checked_members nodes;
    first_error = none;
    cancelled = false;
  }

module _ (W : World) (L : Ledger W) where
  check_nodes : Exec (System W) (Unit {0})
  unfolding run_check wait_result start_check
  check_nodes s =
      let (events, w) = L.schedule s.world in
      (wait_result (run_check events (start_check W s.net.nodes)), record s { world = w })

  unfoldable pub healthy : Exec (System W) (Unit {0})
  unfolding check_nodes
  healthy s = if s.net.stop_called then fail err_stopped s else check_nodes s
