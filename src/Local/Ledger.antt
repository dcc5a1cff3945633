-- ===== src/Local/Ledger.antt =====
-- What local/blockchain.go and the health checks of local/network.go call: the P-Chain, wallet and
-- admin clients of avalanchego, the Go library, and which goroutine or channel is ready next. The
-- calls act on the state of the world.
use cnr_sandbox.Base.{ℕ, String, List}
use cnr_sandbox.Base.Exec.{Error, Result, Exec}
use cnr_sandbox.World.{World}

-- A validator that the P-Chain reports, its end as a uint64 of seconds.
pub record Validator : Type 0 where
  pub node_id : String
  pub end_time : ℕ

-- txs.SubnetValidator; times are uint64 seconds.
pub record SubnetValidator : Type 0 where
  pub node_id : String
  pub start : ℕ
  pub end_time : ℕ
  pub weight : ℕ
  pub subnet : String

-- What a health goroutine finds in a round: the node's process is not running, or its health check
-- succeeds, or it does not.
pub data Look : Type 0 where
  exited well unwell : Look

-- What happens next among the goroutines of a health check, each under the name of its node: it
-- checks the node, the timer of its `select` fires, or its `select` takes the end of the context;
-- or the context ends (the network is stopped or the deadline passes).
pub data HealthEvent : Type 0 where
  looked : String → Look → HealthEvent
  ticked gave_up : String → HealthEvent
  expired : HealthEvent

-- The channel that ends a wait: `onStopCh`, or `ctx.Done()` with the context's error.
pub data Wake : Type 0 where
  stopping : Wake
  done : Error → Wake

pub record Ledger (W : World) : Type 1 where
  -- strings.Split and strings.Join at a comma, sort.Strings
  pub split : String → List String
  pub join_all : List String → String
  pub sort : List String → List String
  -- ids.ID, its bytes in a string: `String`, `FromString`, `ToID` of a padded name
  pub id_text : String → String
  pub id_of_text : String → Result String
  pub padded_id : String → String
  pub primary_network : String
  -- time.Now().Unix()
  pub now : W.State → ℕ × W.State
  -- which channel ends a wait, and how often the timer fires before
  pub ticks : W.State → ℕ × Wake
  -- what happens elsewhere while a loop waits for its timer
  pub pass : W.State → W.State
  -- the goroutines of a health check
  pub schedule : W.State → List HealthEvent × W.State
  -- platformvm.Client at a URI: the validators of a subnet; GetTx and txs.Parse
  pub get_current_validators : String → String → Exec W.State (List Validator)
  pub Tx : Type 0
  pub get_tx : String → String → Exec W.State String
  pub parse_tx : String → Result Tx
  -- primary.FetchState, and the wallet's backend, builder and signer over it
  pub PChain : Type 0
  pub fetch_state : String → Exec W.State PChain
  pub Wallet : Type 0
  pub make_wallet : String → PChain → List (String × Tx) → Wallet
  -- bls.SecretKeyFromBytes, signer.NewProofOfPossession
  pub secret_key_of_bytes : String → Result String
  pub proof_of_possession : String → String
  pub min_validator_stake : ℕ
  -- the wallet: the owner of the outputs is the wallet's address
  pub issue_add_permissionless_validator :
      Wallet → SubnetValidator → String → ℕ → Exec W.State String
  pub issue_create_subnet : Wallet → Exec W.State String
  pub issue_add_subnet_validator : Wallet → SubnetValidator → Exec W.State String
  pub UnsignedTx : Type 0
  pub new_create_chain : Wallet → String → String → String → String → Exec W.State UnsignedTx
  pub sign_unsigned : Wallet → UnsignedTx → Exec W.State Tx
  pub accept_tx : Wallet → Tx → Exec W.State (Unit {0})
  pub tx_id : Tx → String
  pub issue_tx : Wallet → Tx → Exec W.State String
  -- admin.Client at a URI: the VMs that failed to load; the AdminAPI of a node's client, at its port
  pub load_vms : String → Exec W.State (List String)
  pub alias_chain : ℕ → String → String → Exec W.State (Unit {0})
