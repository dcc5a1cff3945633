-- ===== src/Local/Health/Found.antt =====
-- What `healthy` of local/network.go has found when it returns without an error.
use cnr_sandbox.Base.{
  arith, eq_iff, String, ◌==◌, Bool, true, false, Option, some, List, [], ◌∷◌, ◌≡◌, refl,
  if◌then◌else◌, inl, inr, Option-cases, has_value, ◌||◌, Bool-cases, ap, sym, ◌∙◌,
}
use cnr_sandbox.Base.Dict.{Dict, lookup}
use cnr_sandbox.Base.Exec.{ok}
use cnr_sandbox.World.{World}
use cnr_sandbox.Local.State.{LocalNode, System}
use cnr_sandbox.Local.Ledger.{
  exited, well, unwell, HealthEvent, looked, ticked, gave_up, expired, Ledger,
}
use cnr_sandbox.Local.Health.{
  Member, looking, waiting, finished, failed, HealthCheck, health_step, run_check, has_ended,
  all_ended, wait_result, start_check, checked_members, healthy, check_nodes,
}
use cnr_sandbox.Local.Health.Steps.{changed_member, about, lookup-health_step}

-- Whether this event is a check of the node that succeeds.
abbrev is_well : String → HealthEvent → Bool
is_well name (looked n well) = n == name
is_well name e = false

-- Whether the node's check succeeded in one of these events.
unfoldable pub was_well : String → List HealthEvent → Bool
was_well name [] = false
was_well name (e ∷ es) = is_well name e || was_well name es

unfoldable is_finished : Option Member → Bool
is_finished (some finished) = true
is_finished m = false

unfoldable is_failed : Option Member → Bool
is_failed (some (failed e)) = true
is_failed m = false

finished_change :
    (e : HealthEvent) (b : Bool) (name : String) (m : Option Member)
    → is_finished (if about name e then changed_member b e m else m) ≡ true
    → (is_finished m || is_well name e) ≡ true
unfolding is_finished changed_member about
finished_change (looked n exited) b name m h = ground arith
finished_change (looked n well) b name m h = ground arith
finished_change (looked n unwell) b name m h = ground arith
finished_change (ticked n) b name m h = ground arith
finished_change (gave_up n) b name m h = ground arith
finished_change expired b name m h = ground arith

-- A goroutine that returned nil found its node well, or had done so before.
finished_run :
    (es : List HealthEvent) (c : HealthCheck) (name : String)
    → is_finished (lookup name (run_check es c).members) ≡ true
    → (is_finished (lookup name c.members) || was_well name es) ≡ true
unfolding run_check was_well
finished_run [] c name h = ground arith
finished_run (e ∷ es) c name h =
    let d = health_step e c in
    let later = finished_run es d name h in
    let now = finished_change e c.cancelled name (lookup name c.members) in
    let moved = lookup-health_step e c name in
    elim (Bool-cases (is_finished (lookup name d.members))) [
      | inl holds ↦ ground (arith, now (sym (ap is_finished moved) ∙ holds))
      | inr fails ↦ ground (arith, later)
    ]

present_change :
    (e : HealthEvent) (b : Bool) (m : Option Member)
    → has_value (changed_member b e m) ≡ has_value m
unfolding changed_member
present_change (looked n exited) b m = ground arith
present_change (looked n well) b m = ground arith
present_change (looked n unwell) b m = ground arith
present_change (ticked n) b m = ground arith
present_change (gave_up n) b m = ground arith
present_change expired b m = ground arith

-- Goroutines are neither added nor dropped.
pub has_value-run_check :
    (es : List HealthEvent) (c : HealthCheck) (name : String)
    → has_value (lookup name (run_check es c).members) ≡ has_value (lookup name c.members)
unfolding run_check
has_value-run_check [] c name = refl
has_value-run_check (e ∷ es) c name =
    let moved = lookup-health_step e c name in
    let same = present_change e c.cancelled (lookup name c.members) in
    has_value-run_check es (health_step e c) name ∙ rw moved (ground arith)

-- An error of a goroutine is not lost.
abbrev KeepsErrors : HealthCheck → Type 0
KeepsErrors c =
    (name : String) → is_failed (lookup name c.members) ≡ true → has_value c.first_error ≡ true

-- The errgroup keeps an error that it has.
keeps_first :
    (e : HealthEvent) (c : HealthCheck)
    → has_value c.first_error ≡ true
    → has_value (health_step e c).first_error ≡ true
unfolding health_step
keeps_first (looked n exited) c h = ground arith
keeps_first (looked n well) c h = ground arith
keeps_first (looked n unwell) c h = ground arith
keeps_first (ticked n) c h = ground arith
keeps_first (gave_up n) c h = ground arith
keeps_first expired c h = h

notes_failure :
    (e : HealthEvent) (c : HealthCheck) (name : String)
    → is_failed (
        if about name e
        then changed_member c.cancelled e (lookup name c.members)
        else lookup name c.members)
      ≡ true
    → (is_failed (lookup name c.members) || has_value (health_step e c).first_error) ≡ true
unfolding health_step is_failed changed_member about
notes_failure (looked n exited) c name h = ground (arith, eq_iff n name)
notes_failure (looked n well) c name h = ground (arith, eq_iff n name)
notes_failure (looked n unwell) c name h = ground (arith, eq_iff n name)
notes_failure (ticked n) c name h = ground (arith, eq_iff n name)
notes_failure (gave_up n) c name h = ground (arith, eq_iff n name)
notes_failure expired c name h = ground arith

KeepsErrors-health_step :
    (e : HealthEvent) (c : HealthCheck) → KeepsErrors c → KeepsErrors (health_step e c)
KeepsErrors-health_step e c h name f =
    let noted = notes_failure e c name (sym (ap is_failed (lookup-health_step e c name)) ∙ f) in
    elim (Bool-cases (is_failed (lookup name c.members))) [
      | inl holds ↦ keeps_first e c (h name holds)
      | inr fails ↦ ground arith
    ]

KeepsErrors-run_check :
    (es : List HealthEvent) (c : HealthCheck) → KeepsErrors c → KeepsErrors (run_check es c)
unfolding run_check
KeepsErrors-run_check [] c h = h
KeepsErrors-run_check (e ∷ es) c h =
    KeepsErrors-run_check es (health_step e c) (KeepsErrors-health_step e c h)

ended_member :
    (name : String) (ms : Dict Member) (m : Member)
    → all_ended ms ≡ true
    → lookup name ms ≡ some m
    → has_ended m ≡ true
unfolding all_ended lookup
ended_member name [] m h e = cc
ended_member name ((n, k) ∷ ms) m h e = ground (arith, ended_member name ms m)

ok-wait_result :
    (c : HealthCheck)
    → wait_result c ≡ ok tt
    → (all_ended c.members ≡ true) × (has_value c.first_error ≡ false)
unfolding wait_result
ok-wait_result c e = ground arith

not_open :
    (m : Member) → has_ended m ≡ true → is_failed (some m) ≡ false → is_finished (some m) ≡ true
unfolding is_failed is_finished
not_open looking e f = cc
not_open waiting e f = cc
not_open finished e f = refl
not_open (failed x) e f = cc

finished_of :
    (c : HealthCheck) (name : String) (m : Member)
    → KeepsErrors c
    → wait_result c ≡ ok tt
    → lookup name c.members ≡ some m
    → is_finished (lookup name c.members) ≡ true
finished_of c name m h e found =
    let (ended, clean) = ok-wait_result c e in
    let kept = h name in
    rw found (not_open m (ended_member name c.members m ended found) (ground arith))

module _ (W : World) where
  starts_looking :
      (name : String) (nodes : Dict (LocalNode W)) (node : LocalNode W)
      → lookup name nodes ≡ some node
      → node.paused ≡ false
      → lookup name (checked_members W nodes) ≡ some looking
  unfolding checked_members lookup
  starts_looking name [] node e running = cc
  starts_looking name ((n, x) ∷ nodes) node e running =
      ground (arith, eq_iff n name, starts_looking name nodes node)

  none_failed :
      (name : String) (nodes : Dict (LocalNode W))
      → is_failed (lookup name (checked_members W nodes)) ≡ false
  unfolding checked_members lookup is_failed
  none_failed name [] = refl
  none_failed name ((n, x) ∷ nodes) = ground (arith, none_failed name nodes)

  start-KeepsErrors : (nodes : Dict (LocalNode W)) → KeepsErrors (start_check W nodes)
  unfolding start_check
  start-KeepsErrors nodes name f = ground (arith, none_failed name nodes)

  check_found :
      (es : List HealthEvent) (nodes : Dict (LocalNode W)) (name : String) (node : LocalNode W)
      → wait_result (run_check es (start_check W nodes)) ≡ ok tt
      → lookup name nodes ≡ some node
      → node.paused ≡ false
      → was_well name es ≡ true
  unfolding start_check is_finished
  check_found es nodes name node e found running =
      let c = start_check W nodes in
      let begun = starts_looking name nodes node found running in
      let kept = KeepsErrors-run_check es c (start-KeepsErrors nodes) in
      let present = has_value-run_check es c name in
      elim (Option-cases (lookup name (run_check es c).members)) [
        | inl missing ↦ ground arith
        | inr (m, at) ↦
            ground (arith, finished_run es c name, finished_of (run_check es c) name m kept e at)
      ]

module _ (W : World) (L : Ledger W) where
  ok-healthy :
      (s t : System W)
      → healthy W L s ≡ (ok tt, t)
      → (s.net.stop_called ≡ false)
        × (wait_result (run_check (L.schedule s.world).0 (start_check W s.net.nodes)) ≡ ok tt)
  unfolding healthy check_nodes
  ok-healthy s t h = ground arith

  -- When `healthy` returns without an error, the network was not stopped, and the check of every node that is not paused succeeded in a round of its goroutine.
  pub healthy_found :
      (s t : System W)
      → healthy W L s ≡ (ok tt, t)
      → (s.net.stop_called ≡ false)
        × ((name : String) (node : LocalNode W)
            → lookup name s.net.nodes ≡ some node
            → node.paused ≡ false
            → was_well name (L.schedule s.world).0 ≡ true)
  healthy_found s t h =
      let (live, e) = ok-healthy s t h in
      (live, λ name node. check_found W (L.schedule s.world).0 s.net.nodes name node e)
