-- ===== src/Local/Chain/Files/Written.antt =====
-- What `setSubnetConfigFiles` of local/blockchain.go leaves in the configs of the nodes.
use cnr_sandbox.Base.{
  arith, eq_iff, String, ◌==◌, Bool, true, Option, none, some, List, [], ◌∷◌, ◌≡◌, refl, sym, ap,
  ◌∙◌, if◌then◌else◌, ◌&&◌,
}
use cnr_sandbox.Base.Dict.{Dict, lookup, insert, lookup-insert}
use cnr_sandbox.Base.Exec.{
  Result, ok, Exec, >>=-eq-ok, for_each, pure, lift, ok_injective, bind_result-eq-ok,
}
use cnr_sandbox.Config.{NodeConfig}
use cnr_sandbox.Config.Specs.{SubnetSpec}
use cnr_sandbox.World.{World}
use cnr_sandbox.Local.State.{LocalNode, System, entries}
use cnr_sandbox.Local.Ledger.{Ledger}
use cnr_sandbox.Local.Chain.Nodes.{contains, for_specs}
use cnr_sandbox.Local.Chain.Files.{
  put, put_subnet_config, change_config, write_config, set_subnet_config, set_subnet_config_files,
}

config_step : Bool → Option String → Option String → Option String
config_step true (some body) before = some body
config_step here body before = before

-- The config under a key after these specs: that of the last one that has a config, this key and
-- the node among its participants.
unfoldable pub written_config :
    (String → String)
    → String
    → String
    → List String
    → List SubnetSpec
    → Option String
    → Option String
unfolding config_step contains
written_config key name k [] specs before = before
written_config key name k (id ∷ ids) [] before = before
written_config key name k (id ∷ ids) (spec ∷ specs) before =
    written_config key name k ids specs
      (config_step (key id == k && contains name spec.participants) spec.subnet_config before)

lookup-put :
    (k j v : String) (o o' : Option (Dict String))
    → put k v o ≡ ok o'
    → lookup j (entries o') ≡ (if k == j then some v else lookup j (entries o))
unfolding put
lookup-put k j v none o' h = cc
lookup-put k j v (some m) o' h = rw (← ok_injective h) (lookup-insert k j v m)

put_subnet_config-ok :
    (k j v : String) (c c' : NodeConfig)
    → put_subnet_config k v c ≡ ok c'
    → lookup j (entries c'.subnet_config_files)
      ≡ (if k == j then some v else lookup j (entries c.subnet_config_files))
unfolding put_subnet_config
put_subnet_config-ok k j v c c' h =
    let (m, e, e') =
      bind_result-eq-ok (put k v c.subnet_config_files)
        (λ m. ok (record c { subnet_config_files = m })) h in
    rw (← ok_injective e') (lookup-put k j v c.subnet_config_files m e)

module _ (W : World) where
  -- The subnet config under this key of the node with this name.
  unfoldable pub subnet_file : String → Option (LocalNode W) → Option String
  unfolding lookup
  subnet_file k none = none
  subnet_file k (some node) = lookup k (entries node.config.subnet_config_files)

  -- A write that succeeds replaces the config of its node, and nothing else.
  pub change_config-ok :
      (change : NodeConfig → Result NodeConfig) (n : String) (o : Option (LocalNode W))
      (s t : System W)
      → change_config W change n o s ≡ (ok tt, t)
      → (node : LocalNode W) × (c : NodeConfig) × (o ≡ some node)
        × (change node.config ≡ ok c)
        × (t.net.nodes ≡ insert n (record node { config = c }) s.net.nodes)
        × (t.world ≡ s.world)
  unfolding change_config
  change_config-ok change n none s t h = cc
  change_config-ok change n (some node) s t h =
      let write : NodeConfig → Exec (System W) (Unit {0}) = λ c u. pure tt (record u {
        net = record u.net { nodes = insert n (record node { config = c }) u.net.nodes };
      }) in
      let (c, u, e, e') = >>=-eq-ok (lift (change node.config)) write s h in
      let end = ap (λ (x : Result (Unit {0}) × System W). x.1) e' in
      let start = ap (λ (x : Result NodeConfig × System W). x.1) e in
      (
        node,
        c,
        refl,
        ap (λ (x : Result NodeConfig × System W). x.0) e,
        ap (λ (x : System W). x.net.nodes) (sym end)
            ∙ ap (λ (x : System W). insert n (record node { config = c }) x.net.nodes) (sym start),
        ap (λ (x : System W). x.world) (sym end) ∙ ap (λ (x : System W). x.world) (sym start),
      )

  -- One write that succeeds.
  write_lem :
      (n name k j v : String) (s t : System W)
      → write_config W (put_subnet_config k v) n s ≡ (ok tt, t)
      → (subnet_file j (lookup name t.net.nodes)
          ≡ (if n == name && k == j then some v else subnet_file j (lookup name s.net.nodes)))
        × (t.world ≡ s.world)
  unfolding write_config subnet_file
  write_lem n name k j v s t h =
      let (node, c, found, changed, nodes, same) =
        change_config-ok (put_subnet_config k v) n (lookup n s.net.nodes) s t h in
      (
        rw (nodes, lookup-insert n name (record node { config = c }) s.net.nodes)
            (ground (arith, eq_iff n name, put_subnet_config-ok k j v node.config c changed)),
        same,
      )

  writes_lem :
      (names : List String) (name k j v : String) (s t : System W)
      → for_each names (write_config W (put_subnet_config k v)) s ≡ (ok tt, t)
      → (subnet_file j (lookup name t.net.nodes) ≡ (
          if contains name names && k == j
          then some v
          else subnet_file j (lookup name s.net.nodes)))
        × (t.world ≡ s.world)
  unfolding for_each contains
  writes_lem [] name k j v s t h =
      let same = ap (λ (x : Result (Unit {0}) × System W). x.1) (sym h) in
      (ap (λ (x : System W). subnet_file j (lookup name x.net.nodes)) same, ap (λ x. x.world) same)
  writes_lem (n ∷ names) name k j v s t h =
      let write = write_config W (put_subnet_config k v) in
      let (x, u, e, e') = >>=-eq-ok (write n) (λ _. for_each names write) s h in
      let (first, kept) = write_lem n name k j v s u e in
      let (rest, kept') = writes_lem names name k j v u t e' in
      (ground (arith, first, rest), kept' ∙ kept)

module _ (W : World) (L : Ledger W) where
  spec_lem :
      (id : String) (names : List String) (body : Option String) (name j : String) (s t : System W)
      → set_subnet_config W L id (record { participants = names; subnet_config = body }) s
        ≡ (ok tt, t)
      → (subnet_file W j (lookup name t.net.nodes)
          ≡ config_step
              (L.id_text id == j && contains name names)
              body
              (subnet_file W j (lookup name s.net.nodes)))
        × (t.world ≡ s.world)
  unfolding set_subnet_config config_step
  spec_lem id names none name j s t h =
      let same = ap (λ (x : Result (Unit {0}) × System W). x.1) (sym h) in
      (
        ap (λ (x : System W). subnet_file W j (lookup name x.net.nodes)) same ∙ ground arith,
        ap (λ x. x.world) same,
      )
  spec_lem id names (some body) name j s t h =
      let (e, same) = writes_lem W names name (L.id_text id) j body s t h in
      (ground (arith, e), same)

  -- When `setSubnetConfigFiles` returns without an error, the subnet config of every node under every key is the last one that the specs have for that subnet and node, or else the one from before; nothing outside the network has changed.
  pub set_subnet_config_files_lem :
      (ids : List String) (specs : List SubnetSpec) (name j : String) (s t : System W)
      → set_subnet_config_files W L ids specs s ≡ (ok tt, t)
      → (subnet_file W j (lookup name t.net.nodes)
          ≡ written_config L.id_text name j ids specs (subnet_file W j (lookup name s.net.nodes)))
        × (t.world ≡ s.world)
  unfolding set_subnet_config_files for_specs written_config
  set_subnet_config_files_lem [] specs name j s t h =
      let same = ap (λ (x : Result (Unit {0}) × System W). x.1) (sym h) in
      (
        ap (λ (x : System W). subnet_file W j (lookup name x.net.nodes)) same,
        ap (λ x. x.world) same,
      )
  set_subnet_config_files_lem (id ∷ ids) [] name j s t h = cc
  set_subnet_config_files_lem (id ∷ ids) (spec ∷ specs) name j s t h =
      let (x, u, e, e') =
        >>=-eq-ok (set_subnet_config W L id spec) (λ _. set_subnet_config_files W L ids specs) s
          h in
      let (first, kept) = spec_lem id spec.participants spec.subnet_config name j s u e in
      let (rest, kept') = set_subnet_config_files_lem ids specs name j u t e' in
      (rest ∙ ap (written_config L.id_text name j ids specs) first, kept' ∙ kept)
