-- ===== src/Local/Snapshot/Stopping.antt =====
-- What `SaveSnapshot` of local/snapshot.go does to the network.
use cnr_sandbox.Base.{
  String, Bool, true, false, ◌==◌, List, [], ◌≡◌, refl, ap, ◌∙◌, ◌⊎◌, inl, inr, if◌then◌else◌,
}
use cnr_sandbox.Base.Dict.{NodupKeys, values}
use cnr_sandbox.Base.Exec.{
  Result, ok, err, crash, Exec, lift, ◌>>=◌, ◌>>◌, Fails, IsPreorder, Within, within_rules,
  >>=-cases,
}
use cnr_sandbox.Config.{NodeConfig}
use cnr_sandbox.World.{World}
use cnr_sandbox.Local.State.{LocalNetwork, System, outside}
use cnr_sandbox.Local.Network.Remove.{stop}
use cnr_sandbox.Local.Network.Remove.Stopping.{stop_lem}
use cnr_sandbox.Local.Snapshot.{
  save_snapshot, write_snapshot, snapshot_configs, snapshot_dir, path_free, save_db,
}

module _ (W : World) where
  abbrev SameNet : System W → System W → Type 0
  SameNet s t = t.net ≡ s.net

  SameNet-order : IsPreorder SameNet
  SameNet-order = record { reflexive = λ s. refl; transitive = λ s t u p q. q ∙ p }

  outside-SameNet : {A : Type 0} (m : Exec W.State A) → Within SameNet (outside W m)
  outside-SameNet m = record { at = λ s. refl }

  ruleset same_net = (within_rules, SameNet-order, outside-SameNet)

  save_db-SameNet :
      (ln : LocalNetwork W) (dir : String) (c : NodeConfig) → Within SameNet (save_db W ln dir c)
  unfolding save_db
  save_db-SameNet ln dir c = search same_net depth 8

  write_snapshot-SameNet :
      (dir : String) (ln : LocalNetwork W) (configs : List NodeConfig)
      → Within SameNet (write_snapshot W dir ln configs)
  unfolding write_snapshot
  write_snapshot-SameNet dir ln configs = search (same_net, save_db-SameNet) depth 10

  module _ (s : System W) where
    -- The call failed and changed nothing, or the network was stopped.
    abbrev pub IsSaved : Result String × System W → Type 0
    IsSaved (r, t) = (Fails r × (t ≡ s)) ⊎ (t.net.nodes ≡ [])

    after_result :
        {A : Type 0} (r : Result A) (f : A → Exec (System W) String)
        → ((a : A) → IsSaved (f a s))
        → IsSaved ((lift r >>= f) s)
    after_result (ok a) f h = h a
    after_result (err e) f h = inl (tt, refl)
    after_result (crash m) f h = inl (tt, refl)

    at_branch :
        (b : Bool) (x y : Result String × System W)
        → IsSaved x
        → IsSaved y
        → IsSaved (if b then x else y)
    at_branch true x y h k = h
    at_branch false x y h k = k

    once_stopped :
        (dir : String) (configs : List NodeConfig)
        → NodupKeys s.net.nodes
        → IsSaved ((stop W >> write_snapshot W dir s.net configs) s)
    once_stopped dir configs u =
        let rest = write_snapshot W dir s.net configs in
        let t = (stop W s).1 in
        let empty = (stop_lem W s u).0 in
        elim (>>=-cases (stop W) (λ _. rest) s) [
          | inl (a, e, same) ↦ inr (
              ap (λ x. x.1.net.nodes) same
              ∙ (ap (λ x. x.nodes) ((write_snapshot-SameNet dir s.net configs).at t) ∙ empty))
          | inr (failed, same) ↦ inr (ap (λ x. x.net.nodes) same ∙ empty)
        ]

  -- SaveSnapshot on a network in which no name stands twice either fails and has changed nothing, neither in the network nor on the disk, or the network has been stopped and has no node any more; when it returns the path of a snapshot, it is the second.
  pub save_snapshot_lem :
      (name : String) (s : System W)
      → NodupKeys s.net.nodes
      → (Fails (save_snapshot W name s).0 × ((save_snapshot W name s).1 ≡ s))
        ⊎ ((save_snapshot W name s).1.net.nodes ≡ [])
  unfolding save_snapshot
  save_snapshot_lem name s u = at_branch s s.net.stop_called _ _ (inl (tt, refl)) (
      at_branch s (name == "") _ _ (inl (tt, refl)) (
        after_result s (path_free W name (W.stat (snapshot_dir W s.net name) s.world)) _ λ a.
          after_result s (snapshot_configs W (values s.net.nodes)) _
            λ configs. once_stopped s (snapshot_dir W s.net name) configs u))
