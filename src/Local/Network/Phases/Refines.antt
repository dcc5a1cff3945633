-- ===== src/Local/Network/Phases/Refines.antt =====
-- Every run of operations of local/network.go shows as a run of the abstract operations.
use mathlib.Core.Path.{subst}
use cnr_sandbox.Base.{
  arith, String, ◌==◌, Bool, true, false, Option, none, some, List, [], ◌∷◌, ◌≡◌, ◌≢◌, refl, sym,
  ap, ◌∙◌, ◌⊎◌, inl, inr, if◌then◌else◌,
}
use cnr_sandbox.Base.Dict.{Dict, lookup}
use cnr_sandbox.Base.Exec.{Result, ok, err, crash, Exec, pure, lift, ◌>>◌, ◌>>=◌, >>=-cases}
use cnr_sandbox.Config.{Value, NodeConfig, RestartOptions}
use cnr_sandbox.World.{World}
use cnr_sandbox.Local.State.{LocalNode, System}
use cnr_sandbox.Local.Network.Add.{with_defaults, add_node}
use cnr_sandbox.Local.Network.Remove.{remove_node}
use cnr_sandbox.Local.Network.Restart.{
  assign_all, place_flags, share_maps, resume_found, resume_node, restart_config, restart_with,
  restart_found, restart_node,
}
use cnr_sandbox.Local.Network.Phases.{
  paused, Keeps, Drops, Operation, add, remove, pause, resume, restart, Allowed, Runs, phase_of,
  view, perform, run,
}
use cnr_sandbox.Local.Network.Phases.Moves.{
  view-add_node, view-remove_node, state_before, Allowed-add, Allowed-remove, Allowed-pause,
  view-share_maps, after_share,
}

module _ (W : World) where
  -- A property of the state after a step and what follows it.
  after_step :
      {A B : Type 0} (P : System W → Type 0) (m : Exec (System W) A) (f : A → Exec (System W) B)
      (s : System W)
      → P (m s).1
      → ((a : A) → P (f a (m s).1).1)
      → P ((m >>= f) s).1
  after_step {B = B} P m f s p q = elim (>>=-cases m f s) [
    | inl (a, e, r) ↦ subst P (ap (λ (x : Result B × System W). x.1) (sym r)) (q a)
    | inr (failed, same) ↦ subst P (sym same) p
  ]

  branch :
      {A : Type 0} (P : System W → Type 0) (b : Bool) (m n : Exec (System W) A) (s : System W)
      → (b ≡ true → P (m s).1)
      → (b ≡ false → P (n s).1)
      → P ((if b then m else n) s).1
  branch P true m n s p q = p refl
  branch P false m n s p q = q refl

  shows_paused :
      (n : String) (node : LocalNode W) (s : System W)
      → lookup n s.net.nodes ≡ some node
      → node.paused ≡ true
      → view W s n ≡ some paused
  unfolding view phase_of
  shows_paused n node s found p = rw found (ground arith)

  shows_some :
      (n : String) (node : LocalNode W) (s : System W)
      → lookup n s.net.nodes ≡ some node
      → view W s n ≢ none
  unfolding view phase_of
  shows_some n node s found e = ground arith

  module _ (n : String) (s : System W) where
    MayResume : System W → Type 0
    MayResume t = Allowed (resume n) (view W s) (view W t)

    resume_rest :
        (node : LocalNode W) (flags : Option (Dict Value))
        → lookup n s.net.nodes ≡ some node
        → node.paused ≡ true
        → (let c = record node.config { flags = flags } in
            MayResume
              ((share_maps W n node (with_defaults W s.net c) >> (add_node W c >>= λ x. pure tt))
                s).1)
    unfolding MayResume share_maps
    resume_rest node flags found p =
        let c : NodeConfig = record node.config { flags = flags } in
        let d = with_defaults W s.net c in
        subst MayResume (sym (state_before W (add_node W c) (share_maps W n node d s).1))
          (elim (after_share W n node d c s found) [
            | inl kept ↦ inl kept
            | inr (m, started) ↦ inr (shows_paused n node s found p, m, started)
          ])

    resume_lem :
        (node : LocalNode W)
        → lookup n s.net.nodes ≡ some node
        → MayResume (resume_found W n (some node) s).1
    unfolding MayResume resume_found
    resume_lem node found =
        branch MayResume node.paused _ _ s
          (λ p.
            after_step MayResume (lift (assign_all (place_flags W node) node.config.flags)) _ s
              (inl (λ j. refl)) λ flags. resume_rest node flags found p)
          (λ p. inl (λ j. refl))

  -- An operation on a node, by whether it is there.
  at_node :
      (P : System W → Type 0) (m : Option (LocalNode W) → Exec (System W) (Unit {0})) (s : System W)
      (n : String) (o : Option (LocalNode W))
      → lookup n s.net.nodes ≡ o
      → P (m none s).1
      → ((node : LocalNode W) → lookup n s.net.nodes ≡ some node → P (m (some node) s).1)
      → P (m o s).1
  at_node P m s n none e p q = p
  at_node P m s n (some node) e p q = q node e

  Allowed-resume :
      (n : String) (s : System W)
      → Allowed (resume n) (view W s) (view W (perform W (resume n) s).1)
  unfolding perform resume_node MayResume
  Allowed-resume n s =
      at_node (MayResume n s) (resume_found W n) s n (lookup n s.net.nodes) refl
        (unfold resume_found in inl (λ j. refl)) (resume_lem n s)

  module _ (o : RestartOptions) (n : String) (s : System W) where
    MayRestart : System W → Type 0
    MayRestart t = Allowed (restart o n) (view W s) (view W t)

    restart_add :
        (c : NodeConfig) (u : System W)
        → view W s n ≢ none
        → Keeps (view W s) (view W u) ⊎ Drops n (view W s) (view W u)
        → MayRestart (add_node W c u).1
    unfolding MayRestart
    restart_add c u there before = elim (view-add_node W c u) [
      | inr (m, started) ↦ inr (there, inr (view W u, m, before, started))
      | inl kept ↦ elim before [
        | inl same ↦ inl (λ j. kept j ∙ same j)
        | inr drops ↦ inr (there, inl (λ j. kept j ∙ drops j))
      ]
    ]

    restart_rest :
        (node : LocalNode W) (c d : NodeConfig)
        → lookup n s.net.nodes ≡ some node
        → MayRestart
            ((share_maps W n node d
                >> ((if node.paused then pure tt else remove_node W n)
                    >> (add_node W c >>= λ x. pure tt)))
              s).1
    unfolding MayRestart share_maps
    restart_rest node c d found =
        let u = (share_maps W n node d s).1 in
        let there = shows_some n node s found in
        let same = view-share_maps W n node d s found in
        let end : Exec (System W) (Unit {0}) = add_node W c >>= λ x. pure tt in
        let dropped : Drops n (view W s) (view W (remove_node W n u).1) =
          λ j. view-remove_node W n u j ∙ ap (λ x. if n == j then none else x) (same j) in
        let finish : (v : System W)
            → Keeps (view W s) (view W v) ⊎ Drops n (view W s) (view W v)
            → MayRestart (end v).1 =
          λ v before.
            subst MayRestart (sym (state_before W (add_node W c) v))
              (restart_add c v there before) in
        after_step MayRestart (if node.paused then pure tt else remove_node W n) (λ _. end) u
          (branch MayRestart node.paused (pure tt) (remove_node W n) u (λ p. inl same)
            (λ p. inr (there, inl dropped)))
          λ a.
            branch (λ v. MayRestart (end v).1) node.paused (pure tt) (remove_node W n) u
              (λ p. finish u (inl same)) (λ p. finish (remove_node W n u).1 (inr dropped))

    restart_with_lem :
        (node : LocalNode W) (written : Result (Unit {0})) (c : NodeConfig)
        → lookup n s.net.nodes ≡ some node
        → MayRestart (restart_with W n node written c s).1
    unfolding MayRestart restart_with
    restart_with_lem node (ok a) c found = restart_rest node c (with_defaults W s.net c) found
    restart_with_lem node (err e) c found = inl (view-share_maps W n node c s found)
    restart_with_lem node (crash m) c found = inl (view-share_maps W n node c s found)

    restart_lem :
        (node : LocalNode W)
        → lookup n s.net.nodes ≡ some node
        → MayRestart (restart_found W o n (some node) s).1
    unfolding MayRestart restart_found
    restart_lem node found =
        let (written, c) = restart_config W o node node.config in
        restart_with_lem node written c found

  Allowed-restart :
      (o : RestartOptions) (n : String) (s : System W)
      → Allowed (restart o n) (view W s) (view W (perform W (restart o n) s).1)
  unfolding perform restart_node MayRestart
  Allowed-restart o n s =
      at_node (MayRestart o n s) (restart_found W o n) s n (lookup n s.net.nodes) refl
        (unfold restart_found in inl (λ j. refl)) (restart_lem o n s)

  Allowed-perform :
      (op : Operation) (s : System W) → Allowed op (view W s) (view W (perform W op s).1)
  Allowed-perform (add c) s = Allowed-add W c s
  Allowed-perform (remove n) s = Allowed-remove W n s
  Allowed-perform (pause n) s = Allowed-pause W n s
  Allowed-perform (resume n) s = Allowed-resume n s
  Allowed-perform (restart o n) s = Allowed-restart o n s

  -- Over any run of adding, removing, pausing, resuming and restarting nodes, whether the operations succeed or fail, the view of the nodes (none, running or paused under each name) goes only through steps of the abstract operations: a node is started only under a name under which none runs, only a node that runs is paused, a node is resumed or restarted only where one is paused or there, and an operation changes what is under its own name and under the name that it starts, and nothing else.
  pub run_refines :
      (ops : List Operation) (s : System W) → Runs ops (view W s) (view W (run W ops s))
  unfolding run
  run_refines [] s = λ j. refl
  run_refines (op ∷ ops) s =
      (view W (perform W op s).1, Allowed-perform op s, run_refines ops (perform W op s).1)
