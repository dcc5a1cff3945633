-- ===== src/Server/Snapshots/Waiting.antt =====
-- WaitForHealthy of server/server.go, round by round.
use cnr_sandbox.Base.{
  Bool, true, false, Option, none, some, ap, sym, ◌∙◌, ◌≡◌, refl, ◌≢◌, has_value, if◌then◌else◌,
}
use cnr_sandbox.Base.Exec.{Error, Result, ok, err, crash, both, message, err_not_bootstrapped}
use cnr_sandbox.Server.State.{ClusterInfo}
use cnr_sandbox.Server.Backend.{Backend}
use cnr_sandbox.Server.Control.Base.{Server, stop_and_remove_network, unhealthy, deep_copy}
use cnr_sandbox.Server.Snapshots.{
  timed_out, Round, answered, again, wait_round, wait_info, wait_select, with_copy,
}

module _ (B : Backend) where
  with_copy-not_again : (r : Result ClusterInfo) (e : Option Error) → with_copy B r e ≢ again
  unfolding with_copy
  with_copy-not_again (ok info) e h = cc
  with_copy-not_again (err x) none h = cc
  with_copy-not_again (err x) (some e) h = cc
  with_copy-not_again (crash m) e h = cc

  timed_out-not_again : (r : Result ClusterInfo) → timed_out B r ≢ again
  unfolding timed_out
  timed_out-not_again (ok info) h = cc
  timed_out-not_again (err x) h = cc
  timed_out-not_again (crash m) h = cc

  wait_select_again :
      (info : ClusterInfo) (e : Option Error) (late late_first alive : Bool)
      → (wait_select B info e late late_first alive).0 ≡ again
      → (late ≡ false)
        × (e ≡ none)
        × (alive ≡ true)
        × ((wait_select B info e late late_first alive).1 ≡ none)
  unfolding wait_select
  wait_select_again info (some e) true true alive h = absurd (timed_out-not_again _ h)
  wait_select_again info (some e) true false alive h = absurd (with_copy-not_again _ _ h)
  wait_select_again info (some e) false late_first alive h = absurd (with_copy-not_again _ _ h)
  wait_select_again info none true late_first alive h = absurd (timed_out-not_again _ h)
  wait_select_again info none false late_first true h = (refl, refl, refl, refl)
  wait_select_again info none false late_first false h = cc

  unhealthy_again :
      (info : ClusterInfo) (e : Option Error) (late late_first alive b : Bool)
      → info.custom_chains_healthy ≡ b
      → (if b
          then (with_copy B (deep_copy B info) none, e)
          else wait_select B info e late late_first alive).0
        ≡ again
      → (late ≡ false)
        × (e ≡ none)
        × (alive ≡ true)
        × ((i : ClusterInfo) × (some info ≡ some i) × (i.custom_chains_healthy ≡ false))
        × ((if b
              then (with_copy B (deep_copy B info) none, e)
              else wait_select B info e late late_first alive).1
            ≡ none)
  unhealthy_again info e late late_first alive true p h =
      absurd (with_copy-not_again (deep_copy B info) none h)
  unhealthy_again info e late late_first alive false p h =
      let found = wait_select_again info e late late_first alive h in
      (found.0, found.1, found.2, (info, refl, p), found.3)

  wait_info_again :
      (c : Option ClusterInfo) (e : Option Error) (late late_first alive : Bool)
      → (wait_info B c e late late_first alive).0 ≡ again
      → (late ≡ false)
        × (e ≡ none)
        × (alive ≡ true)
        × ((info : ClusterInfo) × (c ≡ some info) × (info.custom_chains_healthy ≡ false))
        × ((wait_info B c e late late_first alive).1 ≡ none)
  unfolding wait_info
  wait_info_again none e late late_first alive h = cc
  wait_info_again (some info) e late late_first alive h =
      unhealthy_again info e late late_first alive info.custom_chains_healthy refl h

  -- A round goes on to another one only when there is cluster information whose custom chains are not healthy, no error has come in, the deadline has not passed, and there is a network; and then nothing has changed.
  pub wait_round_again :
      (late late_first : Bool) (s : Server B)
      → (wait_round B late late_first s).0 ≡ again
      → (late ≡ false)
        × (s.async_err ≡ none)
        × (has_value s.network ≡ true)
        × ((info : ClusterInfo) × (s.cluster_info ≡ some info)
            × (info.custom_chains_healthy ≡ false))
        × ((wait_round B late late_first s).1 ≡ s)
  unfolding wait_round
  wait_round_again late late_first s h =
      let found =
        wait_info_again s.cluster_info s.async_err late late_first (has_value s.network) h in
      (
        found.0,
        found.1,
        found.2,
        found.3,
        ap (λ e. record s { async_err = e }) (found.4 ∙ sym found.1),
      )

  -- The answer carries an error.
  abbrev HasError : Round → Type 0
  HasError r = (answer : Option ClusterInfo) × (x : Error) × (r ≡ answered answer (some x))

  with_copy-HasError : (r : Result ClusterInfo) (e : Error) → HasError (with_copy B r (some e))
  unfolding with_copy
  with_copy-HasError (ok info) e = (some info, e, refl)
  with_copy-HasError (err x) e = (none, both e x, refl)
  with_copy-HasError (crash m) e = (none, message m, refl)

  timed_out-HasError : (r : Result ClusterInfo) → HasError (timed_out B r)
  unfolding timed_out
  timed_out-HasError (ok info) = (some info, message "context deadline exceeded", refl)
  timed_out-HasError (err x) = (none, x, refl)
  timed_out-HasError (crash m) = (none, message m, refl)

  wait_select-HasError :
      (info : ClusterInfo) (e : Option Error) (late late_first : Bool)
      → HasError (wait_select B info e late late_first false).0
  unfolding wait_select
  wait_select-HasError info (some e) true true = timed_out-HasError _
  wait_select-HasError info (some e) true false = with_copy-HasError _ _
  wait_select-HasError info (some e) false late_first = with_copy-HasError _ _
  wait_select-HasError info none true late_first = timed_out-HasError _
  wait_select-HasError info none false late_first = (none, err_not_bootstrapped, refl)

  wait_info-HasError :
      (c : Option ClusterInfo) (e : Option Error) (late late_first : Bool)
      → HasError (wait_info B (unhealthy B c) e late late_first false).0
  unfolding wait_info unhealthy
  wait_info-HasError none e late late_first = (none, err_not_bootstrapped, refl)
  wait_info-HasError (some info) e late late_first =
      wait_select-HasError (record info { healthy = false; custom_chains_healthy = false }) e late
        late_first

  -- Once the network was stopped and removed, whoever waits gets an answer with an error in the next round, whatever the deadline, so the loop ends.
  pub wait_after_stop :
      (e : Option Error) (late late_first : Bool) (s : Server B)
      → (answer : Option ClusterInfo) × (x : Error) × ((wait_round B late late_first
            (stop_and_remove_network B e s)).0
          ≡ answered answer (some x))
  unfolding wait_round stop_and_remove_network
  wait_after_stop e late late_first s = wait_info-HasError s.cluster_info e late late_first
