-- ===== src/Local/Defaults/Counting.antt =====
-- How many nodes `NewDefaultConfigNNodes` of local/network.go gives.
use cnr_sandbox.Base.{
  ℕ, zero, suc, ◌+◌, ◌-◌, ◌≤◌, ◌≡◌, refl, List, [], ◌∷◌, ◌++◌, ltb, Bool-cases, inl, inr, length, ℤ,
  arith, ap, sym, ◌∙◌,
}
use cnr_sandbox.Base.Exec.{Gives, Gives-pure, Gives-bind, >>=-eq-ok, lift, wrap_exec, ok_injective}
use cnr_sandbox.Config.{NodeConfig, NetworkConfig}
use cnr_sandbox.World.{World}
use cnr_sandbox.Base.Dict.{lookup}
use cnr_sandbox.Local.State.{entries}
use cnr_sandbox.Local.Defaults.{
  last_config, ref_port, first_configs, added_configs, grown, sized_configs,
}

length-first_configs :
    (n : ℕ) (cs : List NodeConfig) → n ≤ length cs → length (first_configs n cs) ≡ n
unfolding first_configs
length-first_configs zero cs h = refl
length-first_configs (suc n) [] h = ground arith
length-first_configs (suc n) (c ∷ cs) h = ground (arith, length-first_configs n cs)

length_append : (cs ds : List NodeConfig) → length (cs ++ ds) ≡ length cs + length ds
length_append [] ds = omega arith
length_append (c ∷ cs) ds = ground (arith, length_append cs ds)

module _ (W : World) where
  added_configs_lem :
      (ref : NodeConfig) (api staking : ℤ) (i n : ℕ)
      → Gives (λ cs. length cs ≡ n) (added_configs W ref api staking i n)
  unfolding added_configs
  added_configs_lem ref api staking i zero = Gives-pure [] refl
  added_configs_lem ref api staking i (suc n) = record {
    at = λ s t cs h.
        let (pair, u, _, h1) =
          >>=-eq-ok (wrap_exec "couldn't generate staking Cert/Key" W.new_cert_and_key) _ s h in
        let (rest, v, e, h2) = >>=-eq-ok (added_configs W ref api staking (suc i) n) _ u h1 in
        ap length (sym (ok_injective (ap (λ x. x.0) h2)))
        ∙ ap suc ((added_configs_lem ref api staking (suc i) n).at u v rest e);
  }

  grown_lem :
      (cfg : NetworkConfig) (n : ℕ)
      → Gives (λ cs. length cs ≡ length cfg.node_configs + n) (grown W cfg n)
  unfolding grown
  grown_lem cfg n = Gives-bind (lift (last_config cfg.node_configs)) _ λ ref.
      Gives-bind (lift (ref_port W "api" (lookup W.http_port_key (entries ref.flags)))) _ λ api.
        Gives-bind (lift (ref_port W "staking" (lookup W.staking_port_key (entries ref.flags)))) _
          λ staking. record {
            at = λ s t cs h.
                let (more, u, e, h1) = >>=-eq-ok (added_configs W ref api staking 0 n) _ s h in
                ap length (sym (ok_injective (ap (λ x. x.0) h1)))
                ∙ length_append cfg.node_configs more
                ∙ ap (λ k. length cfg.node_configs + k)
                    ((added_configs_lem ref api staking 0 n).at s u more e);
          }

  pub sized : (cfg : NetworkConfig) (n : ℕ) → Gives (λ cs. length cs ≡ n) (sized_configs W cfg n)
  unfolding sized_configs
  sized cfg n = elim (Bool-cases (ltb (length cfg.node_configs) n)) [
    | inl p ↦ rw p (record {
      at = λ s t cs h.
          let grows = (grown_lem cfg (n - length cfg.node_configs)).at s t cs h in ground arith;
    })
    | inr p ↦ rw p (Gives-pure _ (length-first_configs n cfg.node_configs (ground arith)))
  ]
