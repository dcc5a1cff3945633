-- ===== src/Local/Health/Steps.antt =====
-- What one step of a health check changes.
use cnr_sandbox.Base.{
  arith, eq_iff, String, ◌==◌, Bool, true, false, Option, none, some, ◌≡◌, refl, if◌then◌else◌,
}
use cnr_sandbox.Base.Dict.{lookup, lookup-insert}
use cnr_sandbox.Local.Ledger.{
  Look, exited, well, unwell, HealthEvent, looked, ticked, gave_up, expired,
}
use cnr_sandbox.Local.Health.{
  Member, looking, waiting, finished, failed, HealthCheck, health_step, stopped_unexpectedly,
  not_healthy_in_time, look_at, tick, give_up, set_member, fail_member,
}

-- What a step makes of the goroutine of one node.
unfoldable pub changed_member : Bool → HealthEvent → Option Member → Option Member
changed_member cancelled (looked n exited) (some looking) = some (failed (stopped_unexpectedly n))
changed_member cancelled (looked n well) (some looking) = some finished
changed_member cancelled (looked n unwell) (some looking) = some waiting
changed_member cancelled (ticked n) (some waiting) = some looking
changed_member true (gave_up n) (some waiting) = some (failed (not_healthy_in_time n))
changed_member cancelled e m = m

-- Whose event it is.
unfoldable pub about : String → HealthEvent → Bool
about name (looked n look) = n == name
about name (ticked n) = n == name
about name (gave_up n) = n == name
about name expired = false

module _ (c : HealthCheck) (name n : String) where
  look_lem :
      (look : Look) (m : Option Member)
      → lookup n c.members ≡ m
      → lookup name (look_at n look m c).members ≡ (
          if n == name then changed_member c.cancelled (looked n look) m else lookup name c.members)
  unfolding look_at changed_member set_member fail_member
  look_lem exited none e = ground (arith, eq_iff n name)
  look_lem well none e = ground (arith, eq_iff n name)
  look_lem unwell none e = ground (arith, eq_iff n name)
  look_lem exited (some looking) e =
      lookup-insert n name (failed (stopped_unexpectedly n)) c.members
  look_lem well (some looking) e = lookup-insert n name finished c.members
  look_lem unwell (some looking) e = lookup-insert n name waiting c.members
  look_lem look (some waiting) e = ground (arith, eq_iff n name)
  look_lem look (some finished) e = ground (arith, eq_iff n name)
  look_lem look (some (failed x)) e = ground (arith, eq_iff n name)

  tick_lem :
      (m : Option Member)
      → lookup n c.members ≡ m
      → lookup name (tick n m c).members
        ≡ (if n == name then changed_member c.cancelled (ticked n) m else lookup name c.members)
  unfolding tick changed_member set_member
  tick_lem none e = ground (arith, eq_iff n name)
  tick_lem (some looking) e = ground (arith, eq_iff n name)
  tick_lem (some waiting) e = lookup-insert n name looking c.members
  tick_lem (some finished) e = ground (arith, eq_iff n name)
  tick_lem (some (failed x)) e = ground (arith, eq_iff n name)

  give_lem :
      (m : Option Member)
      → lookup n c.members ≡ m
      → lookup name (give_up n m c).members
        ≡ (if n == name then changed_member c.cancelled (gave_up n) m else lookup name c.members)
  unfolding give_up changed_member set_member fail_member
  give_lem none e = ground (arith, eq_iff n name)
  give_lem (some looking) e = ground (arith, eq_iff n name)
  give_lem (some waiting) e =
      ground (arith, eq_iff n name, lookup-insert n name (failed (not_healthy_in_time n)) c.members)
  give_lem (some finished) e = ground (arith, eq_iff n name)
  give_lem (some (failed x)) e = ground (arith, eq_iff n name)

-- A step changes the goroutine that it is about, and no other.
pub lookup-health_step :
    (e : HealthEvent) (c : HealthCheck) (name : String)
    → lookup name (health_step e c).members ≡ (
        if about name e
        then changed_member c.cancelled e (lookup name c.members)
        else lookup name c.members)
unfolding health_step about
lookup-health_step (looked n look) c name =
    ground (arith, eq_iff n name, look_lem c name n look (lookup n c.members) refl)
lookup-health_step (ticked n) c name =
    ground (arith, eq_iff n name, tick_lem c name n (lookup n c.members) refl)
lookup-health_step (gave_up n) c name =
    ground (arith, eq_iff n name, give_lem c name n (lookup n c.members) refl)
lookup-health_step expired c name = refl
