-- ===== src/Local/Chain/Waiting.antt =====
-- The loops of local/blockchain.go that poll: `waitPrimaryValidators`, `waitSubnetValidators` and
-- the loop of `waitForCustomChainsReady` over one log. Which channel ends a `select` and how often
-- its timer fires before come from the ledger.
pub mod Reached
use cnr_sandbox.Base.{
  ℕ, zero, suc, String, Bool, true, false, ◌&&◌, Option, none, some, List, [], ◌∷◌, if◌then◌else◌,
}
use cnr_sandbox.Base.Dict.{Dict, lookup}
use cnr_sandbox.Base.Exec.{
  Error, Result, ok, err, Exec, pure, fail, panic, lift, get, ◌>>=◌, bind_result, message,
  err_aborted,
}
use cnr_sandbox.Config.Specs.{SubnetSpec}
use cnr_sandbox.World.{World, Stat}
use cnr_sandbox.Local.State.{LocalNode, System, outside}
use cnr_sandbox.Local.Ledger.{Validator, Wake, stopping, done, Ledger}
use cnr_sandbox.Local.Chain.Nodes.{contains, validator_ids}

abbrev pub wake_error : Wake → Error
wake_error stopping = err_aborted
wake_error (done e) = e

-- `for { if ready() { return nil }; select ... }`, where the timer fires `k` times.
unfoldable pub poll_until : {S : Type 0} → ℕ → Wake → Exec S Bool → Exec S (Unit {0})
poll_until zero wake ready = ready >>= λ b. if b then pure tt else fail (wake_error wake)
poll_until (suc k) wake ready = ready >>= λ b. if b then pure tt else poll_until k wake ready

unfoldable pub not_in_network : String → Error
not_in_network name = message "participant node is not in network nodes"

module _ (W : World) where
  -- Every node of the network is among the validators.
  unfoldable pub nodes_validate : List String → Dict (LocalNode W) → Bool
  unfolding contains
  nodes_validate ids [] = true
  nodes_validate ids ((name, node) ∷ nodes) = contains node.node_id ids && nodes_validate ids nodes

  participant_validates : List String → String → Option (LocalNode W) → Result Bool → Result Bool
  unfolding contains not_in_network
  participant_validates ids name none rest = err (not_in_network name)
  participant_validates ids name (some node) rest =
      bind_result rest λ b. ok (contains node.node_id ids && b)

  -- Every participant is among the validators; all of them must be nodes.
  unfoldable pub participants_validate :
      List String → List String → Dict (LocalNode W) → Result Bool
  unfolding participant_validates lookup
  participants_validate ids [] nodes = ok true
  participants_validate ids (name ∷ names) nodes =
      participant_validates ids name (lookup name nodes) (participants_validate ids names nodes)

module _ (W : World) (L : Ledger W) where
  unfoldable pub until : Exec (System W) Bool → Exec (System W) (Unit {0})
  unfolding poll_until
  until ready s = let (k, wake) = L.ticks s.world in poll_until k wake ready s

  unfoldable pub primary_ready : String → Exec (System W) Bool
  unfolding nodes_validate validator_ids
  primary_ready uri = do
    vs ← outside W (L.get_current_validators uri L.primary_network)
    s ← get
    pure (nodes_validate W (validator_ids vs) s.net.nodes)

  unfoldable pub wait_primary_validators : String → Exec (System W) (Unit {0})
  unfolding until primary_ready
  wait_primary_validators uri = until (primary_ready uri)

  unfoldable pub subnet_ready : String → String → SubnetSpec → Exec (System W) Bool
  unfolding participants_validate validator_ids
  subnet_ready uri id spec = do
    vs ← outside W (L.get_current_validators uri id)
    s ← get
    lift (participants_validate W (validator_ids vs) spec.participants s.net.nodes)

  -- A round ends at the first subnet that is not ready.
  unfoldable pub subnets_ready : String → List String → List SubnetSpec → Exec (System W) Bool
  unfolding subnet_ready
  subnets_ready uri [] specs = pure true
  subnets_ready uri (id ∷ ids) [] = panic "index out of range"
  subnets_ready uri (id ∷ ids) (spec ∷ specs) = do
    b ← subnet_ready uri id spec
    (if b then subnets_ready uri ids specs else pure false)

  unfoldable pub wait_subnet_validators :
      String → List String → List SubnetSpec → Exec (System W) (Unit {0})
  unfolding until subnets_ready
  wait_subnet_validators uri ids specs = until (subnets_ready uri ids specs)

  log_found : Stat → Bool
  log_found Stat.present = true
  log_found s = false

  -- One look for the log, after which time passes.
  look_for_log : String → Exec (System W) Bool
  unfolding log_found
  look_for_log path s = (ok (log_found (W.stat path s.world)), record s { world = L.pass s.world })

  unfoldable pub wait_log : String → Exec (System W) (Unit {0})
  unfolding until look_for_log
  wait_log path = until (look_for_log path)
