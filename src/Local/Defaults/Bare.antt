-- ===== src/Local/Defaults/Bare.antt =====
-- What the nodes of the config that `NewDefaultConfigNNodes` of local/network.go gives are like.
use mathlib.Core.Path.{subst}
use cnr_sandbox.Base.{
  ℕ, zero, suc, ◌-◌, String, ◌≡◌, refl, ap, List, [], ◌∷◌, ◌++◌, ltb, length, ℤ, All, Bool-cases,
  inl, inr,
}
use cnr_sandbox.Base.Dict.{Dict, lookup}
use cnr_sandbox.Base.Exec.{
  ok, Gives, Gives-pure, Gives-bind, >>=-eq-ok, lift, wrap_exec, ok_injective,
}
use cnr_sandbox.Config.{Value, NodeConfig, NetworkConfig, HasNilFiles}
use cnr_sandbox.World.{World}
use cnr_sandbox.Local.State.{entries}
use cnr_sandbox.Local.Defaults.{
  EmbeddedNode, embedded_configs, default_network_config, last_config, ref_port, first_configs,
  added_configs, grown, sized_configs, new_default_config_n_nodes,
}
use cnr_sandbox.Local.Defaults.Counting.{sized}

embedded-HasNilFiles : (ns : List EmbeddedNode) → All HasNilFiles (embedded_configs ns)
unfolding embedded_configs
embedded-HasNilFiles [] = tt
embedded-HasNilFiles (n ∷ ns) = ((refl, refl, refl), embedded-HasNilFiles ns)

module _ (P : NodeConfig → Type 0) where
  All-append : (cs ds : List NodeConfig) → All P cs → All P ds → All P (cs ++ ds)
  All-append [] ds h k = k
  All-append (c ∷ cs) ds h k = (h.0, All-append cs ds h.1 k)

  All-first_configs : (n : ℕ) (cs : List NodeConfig) → All P cs → All P (first_configs n cs)
  unfolding first_configs
  All-first_configs zero cs h = tt
  All-first_configs (suc n) [] h = tt
  All-first_configs (suc n) (c ∷ cs) h = (h.0, All-first_configs n cs h.1)

  last_config-All : (cs : List NodeConfig) (c : NodeConfig) → All P cs → last_config cs ≡ ok c → P c
  unfolding last_config
  last_config-All [] c h e = cc
  last_config-All (d ∷ []) c h e = subst P (ok_injective e) h.0
  last_config-All (d ∷ b ∷ cs) c h e = last_config-All (b ∷ cs) c h.1 e

module _ (W : World) where
  added-HasNilFiles :
      (ref : NodeConfig) (api staking : ℤ) (i n : ℕ)
      → HasNilFiles ref
      → Gives (All HasNilFiles) (added_configs W ref api staking i n)
  unfolding added_configs
  added-HasNilFiles ref api staking i zero h = Gives-pure [] tt
  added-HasNilFiles ref api staking i (suc n) h = record {
    at = λ s t cs e.
        let (pair, u, _, e1) =
          >>=-eq-ok (wrap_exec "couldn't generate staking Cert/Key" W.new_cert_and_key) _ s e in
        let (rest, v, e2, e3) = >>=-eq-ok (added_configs W ref api staking (suc i) n) _ u e1 in
        subst (All HasNilFiles) (ok_injective (ap (λ x. x.0) e3))
          (h, (added-HasNilFiles ref api staking (suc i) n h).at u v rest e2);
  }

  grown-HasNilFiles :
      (cfg : NetworkConfig) (n : ℕ)
      → All HasNilFiles cfg.node_configs
      → Gives (All HasNilFiles) (grown W cfg n)
  unfolding grown
  grown-HasNilFiles cfg n h = record {
    at = λ s t cs e.
        let (ref, s1, e1, h1) = >>=-eq-ok (lift (last_config cfg.node_configs)) _ s e in
        let last = last_config-All HasNilFiles cfg.node_configs ref h (ap (λ x. x.0) e1) in
        (Gives-bind (lift (ref_port W "api" (lookup W.http_port_key (entries ref.flags)))) _ λ api.
            Gives-bind (lift (ref_port W "staking" (lookup W.staking_port_key (entries ref.flags))))
              _
              λ staking. record {
                at = λ u v ds k.
                    let (more, w, e2, e3) = >>=-eq-ok (added_configs W ref api staking 0 n) _ u k in
                    subst (All HasNilFiles) (ok_injective (ap (λ x. x.0) e3)) (
                      All-append HasNilFiles cfg.node_configs more h
                        ((added-HasNilFiles ref api staking 0 n last).at u w more e2));
              }).at
          s1 t cs h1;
  }

  sized-HasNilFiles :
      (cfg : NetworkConfig) (n : ℕ)
      → All HasNilFiles cfg.node_configs
      → Gives (All HasNilFiles) (sized_configs W cfg n)
  unfolding sized_configs
  sized-HasNilFiles cfg n h = elim (Bool-cases (ltb (length cfg.node_configs) n)) [
    | inl p ↦ rw p (grown-HasNilFiles cfg (n - length cfg.node_configs) h)
    | inr p ↦ rw p (Gives-pure _ (All-first_configs HasNilFiles n cfg.node_configs h))
  ]

  -- The config that NewDefaultConfigNNodes returns has the wanted number of nodes, cut from the embedded ones or with new ones added, and the wanted binary, and each of its nodes has nil maps of chain, upgrade and subnet configs, whatever the embedded files hold.
  pub new_default_config_n_nodes_lem :
      (genesis : String) (flags : Dict Value) (c_chain : String) (nodes : List EmbeddedNode)
      (binary_path : String) (n : ℕ) (s t : W.State) (cfg : NetworkConfig)
      → new_default_config_n_nodes W
          (default_network_config genesis flags c_chain nodes)
          binary_path
          n
          s
        ≡ (ok cfg, t)
      → (length cfg.node_configs ≡ n)
        × (cfg.binary_path ≡ binary_path)
        × All HasNilFiles cfg.node_configs
  unfolding default_network_config new_default_config_n_nodes
  new_default_config_n_nodes_lem genesis flags c_chain nodes binary_path n s t cfg h =
      let default = default_network_config genesis flags c_chain nodes in
      let start : NetworkConfig = record default { binary_path = binary_path } in
      let (cs, u, e, h1) = >>=-eq-ok (sized_configs W start n) _ s h in
      let same : record start { node_configs = cs } ≡ cfg = ok_injective (ap (λ x. x.0) h1) in
      subst
        (λ (c : NetworkConfig).
          (length c.node_configs ≡ n)
          × (c.binary_path ≡ binary_path)
          × All HasNilFiles c.node_configs)
        same
        (
          (sized W start n).at s u cs e,
          refl,
          (sized-HasNilFiles start n (embedded-HasNilFiles nodes)).at s u cs e,
        )
