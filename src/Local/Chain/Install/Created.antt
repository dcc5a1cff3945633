-- ===== src/Local/Chain/Install/Created.antt =====
-- What `CreateSubnets` of local/blockchain.go have done when they return
-- without an error.
use cnr_sandbox.Base.{
  arith, ℕ, zero, suc, ◌%◌, ◌^◌, String, List, [], ◌∷◌, ◌≡◌, refl, ap, sym, length,
}
use cnr_sandbox.Base.Dict.{keys}
use cnr_sandbox.Base.Exec.{
  Result, ok, Exec, pure, ◌>>=◌, >>=-eq-ok, ok_injective, Gives, Gives-pure, wrap_exec,
}
use cnr_sandbox.Config.Specs.{SubnetSpec}
use cnr_sandbox.World.{World}
use cnr_sandbox.Local.State.{LocalNetwork, System}
use cnr_sandbox.Local.Ledger.{Ledger}
use cnr_sandbox.Local.Chain.Nodes.{get_client_uri, all_with_participants}
use cnr_sandbox.Local.Chain.Waiting.Reached.{AllValidated, outside-ok}
use cnr_sandbox.Local.Chain.Validators.{issue_subnets}
use cnr_sandbox.Local.Chain.Install.{completed_specs, create_subnet_txs}

length-all_with_participants :
    (all : List String) (specs : List SubnetSpec)
    → length (all_with_participants all specs) ≡ length specs
unfolding all_with_participants
length-all_with_participants all [] = refl
length-all_with_participants all (spec ∷ specs) = ap suc (length-all_with_participants all specs)

module _ (W : World) (L : Ledger W) where
  length-issue_subnets :
      (n : ℕ) (wallet : L.Wallet) → Gives (λ ids. length ids ≡ n) (issue_subnets W L n wallet)
  unfolding issue_subnets
  length-issue_subnets zero wallet = Gives-pure [] refl
  length-issue_subnets (suc n) wallet = record {
    at = λ w v ids h.
        let issue =
          wrap_exec "P-Wallet Tx Error IssueCreateSubnetTx" (L.issue_create_subnet wallet) in
        let (id, w', e, h') =
          >>=-eq-ok issue (λ id. issue_subnets W L n wallet >>= λ ids. pure (id ∷ ids)) w h in
        let (rest, w'', e', h'') =
          >>=-eq-ok (issue_subnets W L n wallet) (λ ids. pure (id ∷ ids)) w' h' in
        let same = ok_injective (ap (λ (x : Result (List String) × W.State). x.0) h'') in
        rw (← same) (ground (arith, (length-issue_subnets n wallet).at w' w'' rest e'));
  }

  pub length-create_subnet_txs :
      (wallet : L.Wallet) (specs : List SubnetSpec)
      → Gives (λ ids. length ids ≡ length specs % 2 ^ 32) (create_subnet_txs W L wallet specs)
  unfolding create_subnet_txs
  length-create_subnet_txs wallet specs = record {
    at = λ s t ids h.
        let n = length specs % 2 ^ 32 in
        (length-issue_subnets n wallet).at s.world t.world ids
          (outside-ok W (issue_subnets W L n wallet) s t ids h).0;
  }

  pub get_client_uri-ok :
      (uri : String) (s u : System W)
      → get_client_uri W s ≡ (ok uri, u)
      → ((get_client_uri W s).0 ≡ ok uri) × (u.net ≡ s.net)
  unfolding get_client_uri
  get_client_uri-ok uri s u h = (
    ap (λ (x : Result String × System W). x.0) h,
    ap (λ (x : Result String × System W). x.1.net) (sym h),
  )

  -- The subnets of a call: one for each spec, with the participants of the spec or all nodes that
  -- there were, and all of them validators by the node that is asked.
  abbrev pub AreCreated : List SubnetSpec → List String → System W → System W → Type 0
  AreCreated given ids s t =
      (uri : String) × ((get_client_uri W s).0 ≡ ok uri)
      × (length ids ≡ length given % 2 ^ 32)
      × AllValidated W L uri ids (completed_specs W L s.net given) t.net.nodes

  pub length-completed_specs :
      (ln : LocalNetwork W) (given : List SubnetSpec)
      → length (completed_specs W L ln given) ≡ length given
  unfolding completed_specs
  length-completed_specs ln given = length-all_with_participants (L.sort (keys ln.nodes)) given
