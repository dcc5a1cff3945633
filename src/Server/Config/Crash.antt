-- ===== src/Server/Config/Crash.antt =====
-- `createConfig` of server/network.go over default nodes, whose maps of files are nil.
use cnr_sandbox.Base.{
  arith, ℕ, suc, ◌+◌, ◌≤◌, String, ◌<>◌, some, none, ◌≡◌, refl, sym, ap, ◌∙◌, List, [], ◌∷◌,
  or_default, first_some, not, ◌&&◌, ◌||◌, ◌==◌, if◌then◌else◌, All, length, Option,
}
use cnr_sandbox.Base.Dict.{
  Dict, lookup, erase, lookup-set_all, set_all, lookup-insert, lookup-erase,
}
use cnr_sandbox.Base.Exec.{ok, lift, >>=-eq-ok, bind_result-eq-ok}
use cnr_sandbox.Config.{Value, text, NodeConfig, NetworkConfig, HasNilFiles}
use cnr_sandbox.Local.State.{entries}
use cnr_sandbox.Local.Network.Restart.{assign_all}
use cnr_sandbox.Server.State.{Options}
use cnr_sandbox.Server.Backend.{Backend}
use cnr_sandbox.Server.Config.{
  base_flags, parse_optional, configure_node, configure_nodes, create_config, plugin_flag,
}

module _ (B : Backend) where
  -- The request has no file for a chain, an upgrade or a subnet.
  abbrev pub HasNoFiles : Options → Type 0
  HasNoFiles o = (o.chain_configs ≡ []) × (o.upgrade_configs ≡ []) × (o.subnet_configs ≡ [])

  abbrev pub node_name : ℕ → String
  node_name index = "node" <> B.print_nat (index + 1)

  -- A flag as the request wants it: the tracked subnets if some are given, no port if they are
  -- dynamic, or else the flag of the default node.
  abbrev flag_wanted : Options → Option (Dict Value) → String → Option Value
  flag_wanted o flags k =
      if not (o.track_subnets == "") && (B.track_subnets_key == k)
      then some (text o.track_subnets)
      else if o.dynamic_ports && (B.http_port_key == k || B.staking_port_key == k)
      then none
      else lookup k (entries flags)

  lookup-base_flags :
      (o : Options) (flags : Option (Dict Value)) (k : String)
      → lookup k (base_flags B o flags) ≡ flag_wanted o flags k
  unfolding base_flags
  lookup-base_flags o flags k =
      let given = entries flags in
      let ported = erase B.staking_port_key (erase B.http_port_key given) in
      ground (
        arith,
        lookup-erase B.staking_port_key k (erase B.http_port_key given),
        lookup-erase B.http_port_key k given,
        lookup-insert B.track_subnets_key k (text o.track_subnets) ported,
        lookup-insert B.track_subnets_key k (text o.track_subnets) given,
      )

  -- What becomes of the default node `c` with a number.
  abbrev pub IsConfigured : Options → String → ℕ → NodeConfig → NodeConfig → Type 0
  IsConfigured o exec_path index c d =
      (d.name ≡ node_name index)
      × (d.binary_path ≡ exec_path)
      × (d.redirect_stdout ≡ o.redirect_nodes_output)
      × HasNilFiles d
      × ((custom : Dict Value) × (parse_optional B
              (or_default "" (lookup (node_name index) o.custom_node_configs))
            ≡ ok custom)
          × ((k : String)
              → lookup k (entries d.flags)
                ≡ first_some (lookup k custom) (flag_wanted o c.flags k)))

  abbrev pub AreConfigured : Options → String → ℕ → List NodeConfig → List NodeConfig → Type 0
  AreConfigured o exec_path index [] [] = Unit
  AreConfigured o exec_path index [] (d ∷ ds) = ⊥
  AreConfigured o exec_path index (c ∷ cs) [] = ⊥
  AreConfigured o exec_path index (c ∷ cs) (d ∷ ds) =
      IsConfigured o exec_path index c d × AreConfigured o exec_path (suc index) cs ds

  configure_node_lem :
      (o : Options) (exec_path : String) (index : ℕ) (c : NodeConfig) (custom : Dict Value)
      → HasNoFiles o
      → HasNilFiles c
      → parse_optional B (or_default "" (lookup (node_name index) o.custom_node_configs))
        ≡ ok custom
      → (d : NodeConfig) × (configure_node B o exec_path index c ≡ ok d)
        × IsConfigured o exec_path index c d
  unfolding configure_node assign_all
  configure_node_lem o exec_path index c custom (f, g, h) (e1, e2, e3) p =
      let made : NodeConfig = record c {
        name = node_name index;
        flags = some (set_all custom (base_flags B o c.flags));
        binary_path = exec_path;
        redirect_stdout = o.redirect_nodes_output;
        redirect_stderr = o.redirect_nodes_output;
      } in
      (
        made,
        rw (f, g, h, p) refl,
        (
          refl,
          refl,
          refl,
          (e1, e2, e3),
          (
            custom,
            p,
            λ k.
                lookup-set_all k custom (base_flags B o c.flags)
                ∙ ap (first_some (lookup k custom)) (lookup-base_flags o c.flags k),
          ),
        ),
      )

  -- Over default nodes, whose maps of files are nil, a request without chain, upgrade and subnet configs whose custom node configs can all be parsed gives as many node configs, in order: each is called "node" and its number, runs the given binary, still has nil maps, and has for each flag the one of its custom config, else the tracked subnets of the request, else no port where ports are dynamic, else the default node's.
  pub configure_nodes_lem :
      (o : Options) (exec_path : String) (index : ℕ) (cs : List NodeConfig)
      → HasNoFiles o
      → All HasNilFiles cs
      → ((i : ℕ)
          → (custom : Dict Value) × (parse_optional B
                (or_default "" (lookup (node_name i) o.custom_node_configs))
              ≡ ok custom))
      → (ds : List NodeConfig) × (configure_nodes B o exec_path index cs ≡ ok ds)
        × AreConfigured o exec_path index cs ds
  unfolding configure_nodes
  configure_nodes_lem o exec_path index [] f n p = ([], refl, tt)
  configure_nodes_lem o exec_path index (c ∷ cs) f n p =
      let (custom, q) = p index in
      let (d, e, made) = configure_node_lem o exec_path index c custom f n.0 q in
      let (ds, es, rest) = configure_nodes_lem o exec_path (suc index) cs f n.1 p in
      (d ∷ ds, rw (e, es) refl, (made, rest))

  -- The default config has the number of nodes that it is asked for, with nil maps of files.
  abbrev pub GivesNilFiles : Type 0
  GivesNilFiles =
      (path : String) (n : ℕ) (s t : B.State) (cfg : NetworkConfig)
      → B.default_config path n s ≡ (ok cfg, t)
      → (length cfg.node_configs ≡ n) × All HasNilFiles cfg.node_configs

  assigned : (src : Dict String) (m : Option (Dict String)) → assign_all src none ≡ ok m → src ≡ []
  unfolding assign_all
  assigned [] m h = refl
  assigned (e ∷ src) m h = cc

  configured_once :
      (o : Options) (exec_path : String) (index : ℕ) (c d : NodeConfig)
      → HasNilFiles c
      → configure_node B o exec_path index c ≡ ok d
      → HasNoFiles o
  unfolding configure_node
  configured_once o exec_path index c d (e1, e2, e3) h =
      let (chains, a1, h1) =
        bind_result-eq-ok (assign_all o.chain_configs c.chain_config_files) _ h in
      let (upgrades, a2, h2) =
        bind_result-eq-ok (assign_all o.upgrade_configs c.upgrade_config_files) _ h1 in
      let (subnets, a3, h3) =
        bind_result-eq-ok (assign_all o.subnet_configs c.subnet_config_files) _ h2 in
      (
        assigned o.chain_configs chains (ap (assign_all o.chain_configs) (sym e1) ∙ a1),
        assigned o.upgrade_configs upgrades (ap (assign_all o.upgrade_configs) (sym e2) ∙ a2),
        assigned o.subnet_configs subnets (ap (assign_all o.subnet_configs) (sym e3) ∙ a3),
      )

  configured_some :
      (o : Options) (exec_path : String) (index : ℕ) (cs ds : List NodeConfig)
      → 1 ≤ length cs
      → All HasNilFiles cs
      → configure_nodes B o exec_path index cs ≡ ok ds
      → HasNoFiles o
  unfolding configure_nodes
  configured_some o exec_path index [] ds l n h = absurd (omega arith)
  configured_some o exec_path index (c ∷ cs) ds l n h =
      let (d, e, _) = bind_result-eq-ok (configure_node B o exec_path index c) _ h in
      configured_once o exec_path index c d n.0 e

  -- Where the default config has nil maps of files in its nodes and as many nodes as it is asked for, createConfig returns a config for at least one node only for a request without chain, upgrade and subnet configs: with one of these it never returns a config.
  pub create_config-ok :
      (o : Options) (exec_path plugin_dir : String) (s t : B.State) (cfg : NetworkConfig)
      → GivesNilFiles
      → 1 ≤ o.num_nodes
      → create_config B o exec_path plugin_dir s ≡ (ok cfg, t)
      → HasNoFiles o
  unfolding create_config
  create_config-ok o exec_path plugin_dir s t cfg gives some_node h =
      let (start, s1, e1, h1) = >>=-eq-ok (B.default_config o.exec_path o.num_nodes) _ s h in
      let (global, s2, e2, h2) = >>=-eq-ok (lift (parse_optional B o.global_node_config)) _ s1 h1 in
      let (flags, s3, e3, h3) = >>=-eq-ok (lift (assign_all global start.flags)) _ s2 h2 in
      let (more, s4, e4, h4) =
        >>=-eq-ok (lift (assign_all (plugin_flag B plugin_dir) flags)) _ s3 h3 in
      let (nodes, s5, e5, h5) =
        >>=-eq-ok (lift (configure_nodes B o exec_path 0 start.node_configs)) _ s4 h4 in
      let (count, bare) = gives o.exec_path o.num_nodes s s1 start e1 in
      configured_some o exec_path 0 start.node_configs nodes (omega arith) bare (ap (λ x. x.0) e5)
