-- ===== src/Local/Chain/Files/Restarted.antt =====
-- Which nodes `setBlockchainConfigFiles` of local/blockchain.go wants to be restarted.
use cnr_sandbox.Base.{
  arith, eq_iff, String, ◌==◌, Bool, true, false, not, ◌||◌, Option, none, some, List, [], ◌∷◌, ◌≡◌,
  refl, sym, ap, ◌∙◌, if◌then◌else◌, is_empty, has_value,
}
use mathlib.Core.Path.{subst}
use cnr_sandbox.Base.Dict.{lookup, lookup-insert}
use cnr_sandbox.Base.Exec.{
  Result, ok, Exec, pure, lift, get, ◌>>=◌, >>=-eq-ok, ok_injective, bind_result, IsPreorder,
  Within, within_rules,
}
use cnr_sandbox.Config.{NodeConfig}
use cnr_sandbox.Config.Specs.{SubnetSpec, BlockchainSpec}
use cnr_sandbox.World.{World}
use cnr_sandbox.Local.State.{LocalNetwork, System, outside}
use cnr_sandbox.Local.Ledger.{Ledger}
use cnr_sandbox.Local.Chain.Nodes.{
  contains, add_member, get_subnet_validators_nodenames, get_client_uri,
}
use cnr_sandbox.Local.Chain.Files.{
  put_chain_config, put_upgrade_config, config_for, new_participants, text_of_id, write_config,
  chain_participants, write_to_all, set_upgrade_config, set_chain_config, tx_alias, tail,
  set_blockchain_config_files,
}
use cnr_sandbox.Local.Chain.Files.Written.{change_config-ok}

module _ (W : World) where
  -- From `before` to `after`, the set only grows, and the nodes that are not in it are as they were.
  pub record Spares (before after : List String) (s t : System W) : Type 0 where
    pub grows : (x : String) → contains x before ≡ true → contains x after ≡ true
    pub spared :
        (name : String)
        → contains name after ≡ false
        → lookup name t.net.nodes ≡ lookup name s.net.nodes

  Spares-same : (set : List String) (s t : System W) → t.net ≡ s.net → Spares set set s t
  Spares-same set s t e = record {
    grows = λ x h. h;
    spared = λ name h. ap (λ (ln : LocalNetwork W). lookup name ln.nodes) e;
  }

  Spares-then :
      (a b c : List String) (s u t : System W) → Spares a b s u → Spares b c u t → Spares a c s t
  Spares-then a b c s u t p q = record {
    grows = λ x h. q.grows x (p.grows x h);
    spared = λ name h. q.spared name h ∙ p.spared name (ground (arith, q.grows name));
  }

  contains-add :
      (x y : String) (set : List String)
      → contains x (add_member y set) ≡ (y == x || contains x set)
  unfolding add_member contains
  contains-add x y set = ground (arith, eq_iff y x)

  -- A write concerns its own node.
  Spares-write :
      (change : NodeConfig → Result NodeConfig) (n : String) (set : List String) (s t : System W)
      → write_config W change n s ≡ (ok tt, t)
      → Spares set (add_member n set) s t
  unfolding write_config
  Spares-write change n set s t h =
      let (node, c, found, changed, nodes, same) =
        change_config-ok W change n (lookup n s.net.nodes) s t h in
      record {
        grows = λ x e. ground (arith, contains-add x n set);
        spared = λ name e.
            rw (nodes, lookup-insert n name (record node { config = c }) s.net.nodes)
              (ground (arith, contains-add name n set));
      }

  abbrev SameNet : System W → System W → Type 0
  SameNet s t = t.net ≡ s.net

  SameNet-order : IsPreorder SameNet
  SameNet-order = record { reflexive = λ s. refl; transitive = λ s t u p q. q ∙ p }

  get-SameNet : Within SameNet (get {S = System W})
  get-SameNet = record { at = λ s. refl }

  outside-SameNet : {A : Type 0} (m : Exec W.State A) → Within SameNet (outside W m)
  outside-SameNet m = record { at = λ s. refl }

  uri-SameNet : Within SameNet (get_client_uri W)
  unfolding get_client_uri
  uri-SameNet = record { at = λ s. refl }

module _ (W : World) (L : Ledger W) where
  nodenames-SameNet : (id : String) → Within (SameNet W) (get_subnet_validators_nodenames W L id)
  unfolding get_subnet_validators_nodenames
  nodenames-SameNet id =
      search (within_rules, SameNet-order, get-SameNet, outside-SameNet, uri-SameNet) depth 12

  participants-SameNet :
      (id : String) (found : List String) → Within (SameNet W) (chain_participants W L id found)
  unfolding chain_participants
  participants-SameNet id found = search (within_rules, SameNet-order, nodenames-SameNet) depth 8

  Spares-pure :
      (set more : List String) (s t : System W)
      → pure {S = System W} set s ≡ (ok more, t)
      → Spares W set more s t
  Spares-pure set more s t h =
      let same = ok_injective (ap (λ (x : Result (List String) × System W). x.0) h) in
      subst (λ (m : List String). Spares W set m s t) same
        (Spares-same W set s t (ap (λ (x : Result (List String) × System W). x.1.net) (sym h)))

  Spares-write_to_all :
      (change : String → NodeConfig → Result NodeConfig) (names set more : List String)
      (s t : System W)
      → write_to_all W L change names set s ≡ (ok more, t)
      → Spares W set more s t
  unfolding write_to_all
  Spares-write_to_all change [] set more s t h = Spares-pure set more s t h
  Spares-write_to_all change (n ∷ names) set more s t h =
      let rest = write_to_all W L change names (add_member n set) in
      let (x, u, e, e') = >>=-eq-ok (write_config W (change n) n) (λ _. rest) s h in
      Spares-then W set (add_member n set) more s u t (Spares-write W (change n) n set s u e)
        (Spares-write_to_all change names (add_member n set) more u t e')

  Spares-set_upgrade_config :
      (o : Option String) (k : String) (names set more : List String) (s t : System W)
      → set_upgrade_config W L o k names set s ≡ (ok more, t)
      → Spares W set more s t
  unfolding set_upgrade_config
  Spares-set_upgrade_config none k names set more s t h = Spares-pure set more s t h
  Spares-set_upgrade_config (some body) k names set more s t h =
      Spares-write_to_all (λ name. put_upgrade_config k body) names set more s t h

  Spares-if :
      (b : Bool) (m : Exec (System W) (List String)) (set more : List String) (s t : System W)
      → ((more : List String) (t : System W) → m s ≡ (ok more, t) → Spares W set more s t)
      → (if b then m else pure set) s ≡ (ok more, t)
      → Spares W set more s t
  Spares-if true m set more s t p h = p more t h
  Spares-if false m set more s t p h = Spares-pure set more s t h

  Spares-set_chain_config :
      (spec : BlockchainSpec) (k : String) (names set more : List String) (s t : System W)
      → set_chain_config W L spec k names set s ≡ (ok more, t)
      → Spares W set more s t
  unfolding set_chain_config
  Spares-set_chain_config spec k names set more s t h =
      let b = has_value spec.chain_config || not (is_empty spec.per_node_chain_config) in
      let write = write_to_all W L (λ name. put_chain_config k (config_for spec name)) names set in
      let (mid, u, e, e') =
        >>=-eq-ok (if b then write else pure set)
          (set_upgrade_config W L spec.network_upgrade k names) s h in
      Spares-then W set mid more s u t
        (Spares-if b write set mid s u
          (λ m v f.
            Spares-write_to_all (λ name. put_chain_config k (config_for spec name)) names set m s v
              f)
          e)
        (Spares-set_upgrade_config spec.network_upgrade k names mid more u t e')

  -- When `setBlockchainConfigFiles` returns the nodes to restart, every other node is as it was, and no node that was to be restarted before is missing: no config is changed without a restart of its node.
  pub set_blockchain_config_files_lem :
      (chains : List BlockchainSpec) (txs : List L.Tx) (ids : List String) (specs : List SubnetSpec)
      (set more : List String) (s t : System W)
      → set_blockchain_config_files W L chains txs ids specs set s ≡ (ok more, t)
      → Spares W set more s t
  unfolding set_blockchain_config_files
  set_blockchain_config_files_lem [] txs ids specs set more s t h = Spares-pure set more s t h
  set_blockchain_config_files_lem (chain ∷ chains) txs ids specs set more s t h =
      let last : List String → Exec (System W) (List String) =
        set_blockchain_config_files W L chains (tail W L txs) ids specs in
      let write : List String → String → Exec (System W) (List String) =
        λ names k. set_chain_config W L chain k names set >>= last in
      let from_names : List String → Exec (System W) (List String) =
        λ names. lift (tx_alias W L txs) >>= write names in
      let from_found : String → List String → Exec (System W) (List String) =
        λ id found. chain_participants W L id found >>= from_names in
      let from_id : String → Exec (System W) (List String) =
        λ id. lift (new_participants id ids specs []) >>= from_found id in
      let (id, s1, e1, h1) =
        >>=-eq-ok (lift (bind_result (text_of_id chain.subnet_id) L.id_of_text)) from_id s h in
      let (found, s2, e2, h2) =
        >>=-eq-ok (lift (new_participants id ids specs [])) (from_found id) s1 h1 in
      let (names, s3, e3, h3) = >>=-eq-ok (chain_participants W L id found) from_names s2 h2 in
      let (k, s4, e4, h4) = >>=-eq-ok (lift (tx_alias W L txs)) (write names) s3 h3 in
      let (mid, s5, e5, h5) = >>=-eq-ok (set_chain_config W L chain k names set) last s4 h4 in
      let n1 = ap (λ (x : Result String × System W). x.1.net) (sym e1) in
      let n2 = ap (λ (x : Result (List String) × System W). x.1.net) (sym e2) in
      let n3 =
        ap (λ (x : Result (List String) × System W). x.1.net) (sym e3)
        ∙ (participants-SameNet id found).at s2 in
      let n4 = ap (λ (x : Result String × System W). x.1.net) (sym e4) in
      Spares-then W set set more s s4 t (Spares-same W set s s4 (n4 ∙ n3 ∙ n2 ∙ n1)) (
        Spares-then W set mid more s4 s5 t (Spares-set_chain_config chain k names set mid s4 s5 e5)
          (set_blockchain_config_files_lem chains (tail W L txs) ids specs mid more s5 t h5))
