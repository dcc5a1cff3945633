-- ===== src/Local/Chain/Waiting/Reached.antt =====
-- What the loops of local/blockchain.go have found when they end.
use mathlib.Core.Path.{subst}
use cnr_sandbox.Base.{
  arith, ℕ, zero, suc, String, Bool, true, false, Option, none, some, List, [], ◌∷◌, ◌≡◌, refl,
  if◌then◌else◌, ◌⊎◌, inl, inr, Bool-cases, ap, sym, ◌∙◌, eq_iff, ◌==◌,
}
use cnr_sandbox.Base.Dict.{Dict, lookup}
use cnr_sandbox.Base.Exec.{Error, Result, ok, err, crash, Exec, pure, fail, >>=-eq-ok, ok_injective}
use cnr_sandbox.Config.Specs.{SubnetSpec}
use cnr_sandbox.World.{World}
use cnr_sandbox.Local.State.{LocalNode, LocalNetwork, System, outside}
use cnr_sandbox.Local.Ledger.{Validator, Wake, Ledger}
use cnr_sandbox.Local.Chain.Nodes.{contains, validator_ids}
use cnr_sandbox.Local.Chain.Waiting.{
  wake_error, poll_until, until, nodes_validate, participant_validates, participants_validate,
  primary_ready, wait_primary_validators, subnet_ready, subnets_ready, wait_subnet_validators,
}

module _ {S : Type 0} where
  -- A round that ends well was ready, or left it to the rounds after it.
  after_round :
      (b : Bool) (rest : Exec S (Unit {0})) (u t : S)
      → (if b then pure tt else rest) u ≡ (ok tt, t)
      → ((b ≡ true) × (u ≡ t)) ⊎ (rest u ≡ (ok tt, t))
  after_round true rest u t h = inl (refl, ap (λ (x : Result (Unit {0}) × S). x.1) h)
  after_round false rest u t h = inr h

  -- A round that goes on only where the first part was ready.
  both_ready :
      (b : Bool) (rest : Exec S Bool) (u t : S)
      → (if b then rest else pure false) u ≡ (ok true, t)
      → (b ≡ true) × (rest u ≡ (ok true, t))
  both_ready true rest u t h = (refl, h)
  both_ready false rest u t h = cc

  fail-not_ok : (e : Error) (u t : S) → fail {A = Unit {0}} e u ≡ (ok tt, t) → ⊥
  fail-not_ok e u t h = cc

  ready_end :
      (ready : Exec S Bool) (s u t : S) (b : Bool)
      → ready s ≡ (ok b, u)
      → b ≡ true
      → u ≡ t
      → ready s ≡ (ok true, t)
  ready_end ready s u t b e p q = cc

  -- A loop that ends well had a last round that was ready.
  poll_until-ok :
      (k : ℕ) (wake : Wake) (ready : Exec S Bool) (s t : S)
      → poll_until k wake ready s ≡ (ok tt, t)
      → (u : S) × (ready u ≡ (ok true, t))
  unfolding poll_until
  poll_until-ok zero wake ready s t h =
      let (b, u, e, e') =
        >>=-eq-ok ready (λ b. if b then pure tt else fail (wake_error wake)) s h in
      elim (after_round b (fail (wake_error wake)) u t e') [
        | inl (p, q) ↦ (s, ready_end ready s u t b e p q)
        | inr bad ↦ absurd (fail-not_ok (wake_error wake) u t bad)
      ]
  poll_until-ok (suc k) wake ready s t h =
      let (b, u, e, e') =
        >>=-eq-ok ready (λ b. if b then pure tt else poll_until k wake ready) s h in
      elim (after_round b (poll_until k wake ready) u t e') [
        | inl (p, q) ↦ (s, ready_end ready s u t b e p q)
        | inr later ↦ poll_until-ok k wake ready u t later
      ]

module _ (W : World) where
  -- A call that only the outside sees leaves the network alone.
  pub outside-ok :
      {A : Type 0} (m : Exec W.State A) (s u : System W) (a : A)
      → outside W m s ≡ (ok a, u)
      → (m s.world ≡ (ok a, u.world)) × (u.net ≡ s.net)
  outside-ok {A} m s u a h = (
    ap (λ (x : Result A × System W). (x.0, x.1.world)) h,
    ap (λ (x : Result A × System W). x.1.net) (sym h),
  )

module _ (W : World) (L : Ledger W) where
  abbrev Nodes : Type 0
  Nodes = Dict (LocalNode W)

  -- A query at which all participants of a subnet were nodes and among its validators.
  pub record Validated (uri id : String) (names : List String) (nodes : Nodes) : Type 0 where
    asked : W.State
    pub after : W.State
    pub found : List Validator
    pub answer : L.get_current_validators uri id asked ≡ (ok found, after)
    pub all :
        (name : String)
        → contains name names ≡ true
        → (node : LocalNode W) × (lookup name nodes ≡ some node)
          × (contains node.node_id (validator_ids found) ≡ true)

  -- This holds of every new subnet.
  abbrev pub AllValidated : String → List String → List SubnetSpec → Nodes → Type 0
  AllValidated uri [] specs nodes = Unit
  AllValidated uri (id ∷ ids) [] nodes = ⊥
  AllValidated uri (id ∷ ids) (spec ∷ specs) nodes =
      Validated uri id spec.participants nodes × AllValidated uri ids specs nodes

  participant_lem :
      (ids : List String) (name : String) (o : Option (LocalNode W)) (rest : Result Bool)
      → participant_validates W ids name o rest ≡ ok true
      → ((node : LocalNode W) × (o ≡ some node) × (contains node.node_id ids ≡ true))
        × (rest ≡ ok true)
  unfolding participant_validates
  participant_lem ids name none rest h = cc
  participant_lem ids name (some node) (ok b) h =
      ((node, refl, ground (arith, ok_injective h)), ground (arith, ok_injective h))
  participant_lem ids name (some node) (err e) h = cc
  participant_lem ids name (some node) (crash m) h = cc

  participants_lem :
      (ids names : List String) (nodes : Nodes)
      → participants_validate W ids names nodes ≡ ok true
      → (name : String) → contains name names ≡ true
      → (node : LocalNode W) × (lookup name nodes ≡ some node) × (contains node.node_id ids ≡ true)
  unfolding participants_validate contains
  participants_lem ids [] nodes h name e = cc
  participants_lem ids (n ∷ names) nodes h name e =
      let rest = participants_validate W ids names nodes in
      let (found, later) = participant_lem ids n (lookup n nodes) rest h in
      elim (Bool-cases (n == name)) [
        | inl same ↦ rw (← (eq_iff n name).0 same) found
        | inr other ↦ participants_lem ids names nodes later name (ground arith)
      ]

  subnet_ready-true :
      (uri id : String) (spec : SubnetSpec) (s t : System W)
      → subnet_ready W L uri id spec s ≡ (ok true, t)
      → (t.net ≡ s.net) × Validated uri id spec.participants s.net.nodes
  unfolding subnet_ready
  subnet_ready-true uri id spec s t h =
      let check : List Validator → Exec (System W) Bool =
        λ vs u. (participants_validate W (validator_ids vs) spec.participants u.net.nodes, u) in
      let query = L.get_current_validators uri id in
      let (vs, u, e, e') = >>=-eq-ok (outside W query) check s h in
      let (answer, same) = outside-ok W query s u vs e in
      let net_t = ap (λ (x : Result Bool × System W). x.1.net) (sym e') in
      let good = ap (λ (x : Result Bool × System W). x.0) e' in
      (
        net_t ∙ same,
        record {
          asked = s.world;
          after = u.world;
          found = vs;
          answer = answer;
          all = λ name here.
              subst
                (λ (ln : LocalNetwork W).
                  (node : LocalNode W) × (lookup name ln.nodes ≡ some node)
                  × (contains node.node_id (validator_ids vs) ≡ true))
                same
                (participants_lem (validator_ids vs) spec.participants u.net.nodes good name here);
        },
      )

  -- A round over the subnets that ends well has found every one ready.
  subnets_ready-true :
      (uri : String) (ids : List String) (specs : List SubnetSpec) (s t : System W)
      → subnets_ready W L uri ids specs s ≡ (ok true, t)
      → (t.net ≡ s.net) × AllValidated uri ids specs s.net.nodes
  unfolding subnets_ready
  subnets_ready-true uri [] specs s t h = (ap (λ (x : Result Bool × System W). x.1.net) (sym h), tt)
  subnets_ready-true uri (id ∷ ids) [] s t h = cc
  subnets_ready-true uri (id ∷ ids) (spec ∷ specs) s t h =
      let rest : Bool → Exec (System W) Bool =
        λ b. if b then subnets_ready W L uri ids specs else pure false in
      let (b, u, e, e') = >>=-eq-ok (subnet_ready W L uri id spec) rest s h in
      let (p, later) = both_ready b (subnets_ready W L uri ids specs) u t e' in
      let (same, first) =
        subnet_ready-true uri id spec s u
          (ready_end (subnet_ready W L uri id spec) s u u b e p refl) in
      let (same', others) = subnets_ready-true uri ids specs u t later in
      (
        same' ∙ same,
        (first, subst (λ (ln : LocalNetwork W). AllValidated uri ids specs ln.nodes) same others),
      )

  -- When the wait for the validators of new subnets ends without an error, a query in its last round found every participant of every subnet among the validators of the subnet, and all of them are nodes.
  pub wait_subnet_validators_reached :
      (uri : String) (ids : List String) (specs : List SubnetSpec) (s t : System W)
      → wait_subnet_validators W L uri ids specs s ≡ (ok tt, t)
      → AllValidated uri ids specs t.net.nodes
  unfolding wait_subnet_validators until
  wait_subnet_validators_reached uri ids specs s t h =
      let (k, wake) = L.ticks s.world in
      let (u, e) = poll_until-ok k wake (subnets_ready W L uri ids specs) s t h in
      let (same, all) = subnets_ready-true uri ids specs u t e in
      subst (λ (ln : LocalNetwork W). AllValidated uri ids specs ln.nodes) (sym same) all

  nodes_lem :
      (ids : List String) (nodes : Nodes) (name : String) (node : LocalNode W)
      → nodes_validate W ids nodes ≡ true
      → lookup name nodes ≡ some node
      → contains node.node_id ids ≡ true
  unfolding nodes_validate lookup
  nodes_lem ids [] name node h e = cc
  nodes_lem ids ((n, x) ∷ nodes) name node h e = ground (arith, nodes_lem ids nodes name node)

  -- When the wait for primary validators ends without an error, a query in its last round found every node of the network among the primary validators.
  pub wait_primary_validators_lem :
      (uri : String) (s t : System W)
      → wait_primary_validators W L uri s ≡ (ok tt, t)
      → (w : W.State) × (vs : List Validator) × (L.get_current_validators uri L.primary_network w
          ≡ (ok vs, t.world))
        × ((name : String) (node : LocalNode W)
            → lookup name t.net.nodes ≡ some node
            → contains node.node_id (validator_ids vs) ≡ true)
  unfolding wait_primary_validators until primary_ready
  wait_primary_validators_lem uri s t h =
      let (k, wake) = L.ticks s.world in
      let (u, e) = poll_until-ok k wake (primary_ready W L uri) s t h in
      let query = L.get_current_validators uri L.primary_network in
      let check : List Validator → Exec (System W) Bool =
        λ vs u. pure (nodes_validate W (validator_ids vs) u.net.nodes) u in
      let (vs, v, answered, checked) = >>=-eq-ok (outside W query) check u e in
      let (answer, same) = outside-ok W query u v vs answered in
      let good = ok_injective (ap (λ (x : Result Bool × System W). x.0) checked) in
      let end = ap (λ (x : Result Bool × System W). x.1) checked in
      (
        u.world,
        vs,
        answer ∙ ap (λ (x : System W). (ok vs, x.world)) end,
        λ name node found.
            nodes_lem (validator_ids vs) v.net.nodes name node good
              (ap (λ (x : System W). lookup name x.net.nodes) end ∙ found),
      )
