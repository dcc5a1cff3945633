-- ===== src/Local/Network/Names/Fresh.antt =====
-- The loop of `setNodeName` in local/network.go, and the names that are given.
use cnr_sandbox.Base.{
  ℕ, zero, suc, ◌+◌, ◌%◌, ◌^◌, ◌≤◌, ◌<◌, ◌≡◌, ◌≢◌, refl, true, not, ◌&&◌, none, some, arith, eq_iff,
  if◌then◌else◌, length, has_value, Bool-cases, inl, inr, ap, sym, ◌∙◌,
}
use native.Mathlib.Decide.{ℕ_discrete}
use text.Mathlib.TextLemmas.{append_cancel_left}
use cnr_sandbox.Base.Dict.{Dict, lookup, erase, lookup-erase_ne, length-erase_lt}
use cnr_sandbox.Base.Exec.{ok, err, repeated_node_name}
use cnr_sandbox.Config.{NodeConfig}
use cnr_sandbox.World.{World}
use cnr_sandbox.Local.State.{LocalNode, System}
use cnr_sandbox.Local.Network.Names.{default_name, fresh_suffix, is_paused_node, set_node_name}

module _ (W : World) where
  -- `%d` prints different numbers differently.
  abbrev pub PrintsApart : Type 0
  PrintsApart = (a b : ℕ) → W.print_nat a ≡ W.print_nat b → a ≡ b

  default_name-ne : PrintsApart → (a b : ℕ) → a ≢ b → default_name W a ≢ default_name W b
  default_name-ne apart a b h e = h (apart a b (append_cancel_left "node" _ _ e))

  fresh_suffix-agree :
      (fuel k : ℕ) (d e : Dict (LocalNode W))
      → ((j : ℕ) → k ≤ j → lookup (default_name W j) d ≡ lookup (default_name W j) e)
      → k + fuel < 2 ^ 64
      → fresh_suffix W fuel d k ≡ fresh_suffix W fuel e k
  unfolding fresh_suffix
  fresh_suffix-agree zero k d e same room = refl
  fresh_suffix-agree (suc fuel) k d e same room =
      let next : (k + 1) % 2 ^ 64 ≡ k + 1 = omega arith in
      rw
        (
          next,
          same k (omega arith),
          fresh_suffix-agree fuel (k + 1) d e (λ j h. same j (omega arith)) (omega arith),
        )
        refl

  -- The suffix where the loop ends: the first, from `k` on, whose name is free.
  pub record IsFirstFree (k : ℕ) (d : Dict (LocalNode W)) (r : ℕ) : Type 0 where
    pub from : k ≤ r
    pub free : lookup (default_name W r) d ≡ none
    pub taken : (j : ℕ) → k ≤ j → j < r → has_value (lookup (default_name W j) d) ≡ true

  -- A used name: the search goes on as if the node were not there.
  fresh_suffix_used :
      PrintsApart
      → (fuel k : ℕ) (d : Dict (LocalNode W)) → has_value (lookup (default_name W k) d) ≡ true
      → k + suc fuel < 2 ^ 64
      → (r : ℕ) × (fresh_suffix W fuel (erase (default_name W k) d) (k + 1) ≡ some r)
        × IsFirstFree (k + 1) (erase (default_name W k) d) r
      → (r : ℕ) × (fresh_suffix W (suc fuel) d k ≡ some r) × IsFirstFree k d r
  fresh_suffix_used apart fuel k d used room (r, found, first) =
      let same = λ (j : ℕ) (h : k + 1 ≤ j).
        lookup-erase_ne (default_name W k) (default_name W j) d
          (default_name-ne apart k j (omega arith)) in
      let next : (k + 1) % 2 ^ 64 ≡ k + 1 = omega arith in
      let agree =
        fresh_suffix-agree fuel (k + 1) d (erase (default_name W k) d) (λ j h. sym (same j h))
          (omega arith) in
      (
        r,
        unfold fresh_suffix in rw (used, next) (agree ∙ found),
        record {
          from = omega (arith, first.from);
          free = sym (same r first.from) ∙ first.free;
          taken = λ j a b. elim (ℕ_discrete k j) [
            | yes e ↦ rw (← e) used
            | no ne ↦ ap has_value (sym (same j (omega arith))) ∙ first.taken j (omega arith) b
          ];
        },
      )

  fresh_suffix_total :
      PrintsApart
      → (fuel k : ℕ) (d : Dict (LocalNode W)) → length d < fuel
      → k + fuel < 2 ^ 64
      → (r : ℕ) × (fresh_suffix W fuel d k ≡ some r) × IsFirstFree k d r
  fresh_suffix_total apart zero k d h room = absurd (omega arith)
  fresh_suffix_total apart (suc fuel) k d h room =
      elim (Bool-cases (has_value (lookup (default_name W k) d))) [
        | inl used ↦ fresh_suffix_used apart fuel k d used room (
            fresh_suffix_total apart fuel (k + 1) (erase (default_name W k) d)
              (omega (arith, length-erase_lt (default_name W k) d used)) (omega arith))
        | inr unused ↦ (
          k,
          unfold fresh_suffix in rw unused refl,
          record { from = omega arith; free = ground arith; taken = λ j a b. absurd (omega arith) },
        )
      ]

  set_node_name_found :
      (c : NodeConfig) (s : System W) (r : ℕ)
      → c.name ≡ ""
      → fresh_suffix W (suc (length s.net.nodes)) s.net.nodes s.net.next_node_suffix ≡ some r
      → lookup (default_name W r) s.net.nodes ≡ none
      → set_node_name W c s ≡ (
        ok (record c { name = default_name W r }),
        record s { net = record s.net { next_node_suffix = r } },
      )
  unfolding set_node_name
  set_node_name_found c s r unnamed found free = ground (arith, eq_iff c.name "")

  -- A config without a name gets the first default name, from the kept suffix on, that no node has, and the suffix where it was found is kept for the next one: the search ends. The numbers are printed apart from each other, and the suffix and the number of nodes do not reach 2^64.
  pub set_node_name_default :
      PrintsApart
      → (c : NodeConfig) (s : System W) → c.name ≡ ""
      → s.net.next_node_suffix + length s.net.nodes + 1 < 2 ^ 64
      → (r : ℕ) × (set_node_name W c s ≡ (
        ok (record c { name = default_name W r }),
        record s { net = record s.net { next_node_suffix = r } },
      ))
        × IsFirstFree s.net.next_node_suffix s.net.nodes r
  set_node_name_default apart c s unnamed room =
      let d = s.net.nodes in
      let k = s.net.next_node_suffix in
      let (r, found, first) =
        fresh_suffix_total apart (suc (length d)) k d (omega arith) (omega arith) in
      (r, set_node_name_found c s r unnamed found first.free, first)

  -- A given name is kept unless a node that runs has it.
  set_node_name_given :
      (c : NodeConfig) (s : System W)
      → c.name ≢ ""
      → set_node_name W c s ≡ (
          if has_value (lookup c.name s.net.nodes) && not (is_paused_node W s.net c.name)
          then (err (repeated_node_name c.name), s)
          else (ok c, s))
  unfolding set_node_name
  set_node_name_given c s named = ground (arith, eq_iff c.name "")
