-- ===== src/Local/Health/Ending.antt =====
-- When `healthy` of local/network.go returns.
use cnr_sandbox.Base.{
  arith, eq_iff, String, ◌==◌, Bool, true, false, Option, none, some, List, [], ◌∷◌, ◌++◌, ◌≡◌,
  refl, inl, inr, has_value, Bool-cases, sym, ◌≢◌,
}
use cnr_sandbox.Base.Dict.{Dict, lookup, keys, NodupKeys, insert-NodupKeys}
use cnr_sandbox.Base.Exec.{crash}
use cnr_sandbox.World.{World}
use cnr_sandbox.Local.State.{LocalNode}
use cnr_sandbox.Local.Ledger.{
  Look, exited, well, unwell, HealthEvent, looked, ticked, gave_up, expired,
}
use cnr_sandbox.Local.Health.{
  Member, looking, waiting, finished, failed, HealthCheck, health_step, run_check, has_ended,
  all_ended, wait_result, start_check, checked_members, set_member, fail_member, look_at, tick,
  give_up, stopped_unexpectedly, not_healthy_in_time,
}
use cnr_sandbox.Local.Health.Steps.{changed_member, about, lookup-health_step}
use cnr_sandbox.Local.Health.Found.{has_value-run_check}

-- Every goroutine that still runs looks once more, and then takes the end of the context.
unfoldable pub last_round : (String → Look) → List String → List HealthEvent
last_round look [] = []
last_round look (name ∷ names) = looked name (look name) ∷ gave_up name ∷ last_round look names

unfoldable is_open : Option Member → Bool
is_open (some looking) = true
is_open (some waiting) = true
is_open m = false

-- A goroutine that has returned stays so.
closed_change :
    (e : HealthEvent) (b : Bool) (m : Option Member)
    → is_open m ≡ false
    → is_open (changed_member b e m) ≡ false
unfolding is_open changed_member
closed_change (looked n exited) b m h = ground arith
closed_change (looked n well) b m h = ground arith
closed_change (looked n unwell) b m h = ground arith
closed_change (ticked n) b m h = ground arith
closed_change (gave_up n) b m h = ground arith
closed_change expired b m h = ground arith

closed_step :
    (e : HealthEvent) (c : HealthCheck) (name : String)
    → is_open (lookup name c.members) ≡ false
    → is_open (lookup name (health_step e c).members) ≡ false
closed_step e c name h =
    rw (lookup-health_step e c name)
      (ground (arith, closed_change e c.cancelled (lookup name c.members)))

closed_run :
    (es : List HealthEvent) (c : HealthCheck) (name : String)
    → is_open (lookup name c.members) ≡ false
    → is_open (lookup name (run_check es c).members) ≡ false
unfolding run_check
closed_run [] c name h = h
closed_run (e ∷ es) c name h = closed_run es (health_step e c) name (closed_step e c name h)

-- A context that is done stays done.
cancelled_step :
    (e : HealthEvent) (c : HealthCheck) → c.cancelled ≡ true → (health_step e c).cancelled ≡ true
unfolding health_step
cancelled_step (looked n exited) c h = ground arith
cancelled_step (looked n well) c h = ground arith
cancelled_step (looked n unwell) c h = ground arith
cancelled_step (ticked n) c h = ground arith
cancelled_step (gave_up n) c h = ground arith
cancelled_step expired c h = refl

two_steps :
    (look : Look) (n : String) (m : Option Member)
    → is_open (changed_member true (gave_up n) (changed_member true (looked n look) m)) ≡ false
unfolding is_open changed_member
two_steps exited n m = ground arith
two_steps well n m = ground arith
two_steps unwell n m = ground arith

closing_lem :
    (look : Look) (n : String) (c : HealthCheck)
    → c.cancelled ≡ true
    → is_open (lookup n (health_step (gave_up n) (health_step (looked n look) c)).members) ≡ false
unfolding about
closing_lem look n c h =
    let d = health_step (looked n look) c in
    let e1 = lookup-health_step (looked n look) c n in
    let e2 = lookup-health_step (gave_up n) d n in
    let r = cancelled_step (looked n look) c h in
    ground (arith, eq_iff n n, e1, e2, r, two_steps look n (lookup n c.members))

round_closes :
    {V : Type 0} (look : String → Look) (nodes : Dict V) (c : HealthCheck) (name : String)
    → c.cancelled ≡ true
    → has_value (lookup name nodes) ≡ true
    → is_open (lookup name (run_check (last_round look (keys nodes)) c).members) ≡ false
unfolding last_round run_check lookup
round_closes look [] c name h e = cc
round_closes look ((n, x) ∷ nodes) c name h e =
    let d = health_step (gave_up n) (health_step (looked n (look n)) c) in
    let still = cancelled_step (gave_up n) _ (cancelled_step (looked n (look n)) c h) in
    let rest = last_round look (keys nodes) in
    elim (Bool-cases (n == name)) [
      | inl same ↦
          let mine = (eq_iff n name).0 same in
          closed_run rest d name (rw (← mine) (closing_lem (look n) n c h))
      | inr other ↦ round_closes look nodes d name still (ground arith)
    ]

closed_ended : (m : Member) → is_open (some m) ≡ false → has_ended m ≡ true
unfolding is_open
closed_ended looking h = sym h
closed_ended waiting h = sym h
closed_ended finished h = refl
closed_ended (failed e) h = refl

closed_tail :
    (n : String) (m : Member) (ms : Dict Member) (name : String)
    → lookup n ms ≡ none
    → is_open (lookup name ((n, m) ∷ ms)) ≡ false
    → is_open (lookup name ms) ≡ false
unfolding lookup is_open
closed_tail n m ms name absent h = elim (Bool-cases (n == name)) [
  | inl same ↦ rw (← (eq_iff n name).0 same, absent) refl
  | inr other ↦ ground arith
]

all_ended-of :
    (ms : Dict Member)
    → NodupKeys ms
    → ((name : String) → is_open (lookup name ms) ≡ false)
    → all_ended ms ≡ true
unfolding all_ended lookup is_open
all_ended-of [] u h = refl
all_ended-of ((n, m) ∷ ms) u h =
    let rest = all_ended-of ms u.1 (λ name. closed_tail n m ms name u.0 (h name)) in
    let first = h n in ground (arith, eq_iff n n, closed_ended m)

set_member-NodupKeys :
    (name : String) (m : Member) (c : HealthCheck)
    → NodupKeys c.members
    → NodupKeys (set_member name m c).members
unfolding set_member
set_member-NodupKeys name m c u = insert-NodupKeys name m c.members u

health_step-NodupKeys :
    (e : HealthEvent) (c : HealthCheck) → NodupKeys c.members → NodupKeys (health_step e c).members
unfolding health_step look_at tick give_up fail_member
health_step-NodupKeys (looked n exited) c u =
    ground (arith, set_member-NodupKeys n (failed (stopped_unexpectedly n)) c u)
health_step-NodupKeys (looked n well) c u = ground (arith, set_member-NodupKeys n finished c u)
health_step-NodupKeys (looked n unwell) c u = ground (arith, set_member-NodupKeys n waiting c u)
health_step-NodupKeys (ticked n) c u = ground (arith, set_member-NodupKeys n looking c u)
health_step-NodupKeys (gave_up n) c u =
    ground (arith, set_member-NodupKeys n (failed (not_healthy_in_time n)) c u)
health_step-NodupKeys expired c u = u

run_check-NodupKeys :
    (es : List HealthEvent) (c : HealthCheck)
    → NodupKeys c.members
    → NodupKeys (run_check es c).members
unfolding run_check
run_check-NodupKeys [] c u = u
run_check-NodupKeys (e ∷ es) c u =
    run_check-NodupKeys es (health_step e c) (health_step-NodupKeys e c u)

run_check-append :
    (es fs : List HealthEvent) (c : HealthCheck)
    → run_check (es ++ fs) c ≡ run_check fs (run_check es c)
unfolding run_check
run_check-append [] fs c = refl
run_check-append (e ∷ es) fs c = run_check-append es fs (health_step e c)

module _ (W : World) where
  among_nodes :
      (name : String) (nodes : Dict (LocalNode W))
      → has_value (lookup name nodes) ≡ false
      → lookup name (checked_members W nodes) ≡ none
  unfolding checked_members lookup
  among_nodes name [] h = refl
  among_nodes name ((n, x) ∷ nodes) h = ground (arith, among_nodes name nodes)

  checked-NodupKeys :
      (nodes : Dict (LocalNode W)) → NodupKeys nodes → NodupKeys (checked_members W nodes)
  unfolding checked_members
  checked-NodupKeys [] u = tt
  checked-NodupKeys ((n, x) ∷ nodes) u =
      ground (arith, among_nodes n nodes, checked-NodupKeys nodes u.1)

  open_at_start :
      (name : String) (nodes : Dict (LocalNode W)) (es : List HealthEvent)
      → has_value (lookup name nodes) ≡ false
      → is_open (lookup name (run_check es (start_check W nodes)).members) ≡ false
  unfolding start_check is_open
  open_at_start name nodes es absent =
      let none_there = among_nodes name nodes absent in
      let present = has_value-run_check es (start_check W nodes) name in ground arith

  last_round_ends :
      (nodes : Dict (LocalNode W)) (es : List HealthEvent) (look : String → Look)
      → NodupKeys nodes
      → all_ended
          (run_check (es ++ (expired ∷ last_round look (keys nodes))) (start_check W nodes)).members
        ≡ true
  unfolding run_check health_step start_check
  last_round_ends nodes es look u =
      let last = last_round look (keys nodes) in
      let c = start_check W nodes in
      let d = run_check es c in
      let all = es ++ (expired ∷ last) in
      all_ended-of (run_check all c).members (run_check-NodupKeys all c (checked-NodupKeys nodes u))
        (λ name. elim (Bool-cases (has_value (lookup name nodes))) [
          | inl present ↦
              rw (run_check-append es (expired ∷ last) c)
                (round_closes look nodes (health_step expired d) name refl present)
          | inr absent ↦ open_at_start name nodes all absent
        ])

  -- Whatever happened before in a health check of nodes of which no name stands twice, and whatever its goroutines find then: when the context ends and each of them makes a last round, the check returns.
  pub health_check_ends :
      (nodes : Dict (LocalNode W)) (es : List HealthEvent) (look : String → Look) (m : String)
      → NodupKeys nodes
      → wait_result
          (run_check (es ++ (expired ∷ last_round look (keys nodes))) (start_check W nodes))
        ≢ crash m
  unfolding wait_result
  health_check_ends nodes es look m u e = ground (arith, last_round_ends nodes es look u)
