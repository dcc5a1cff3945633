-- ===== src/Config/Genesis.antt =====
-- `NewAvalancheGoGenesis` of network/config.go: the genesis of a new network.
pub mod Built
use Prim.Native.Nat.{ℕ, ◌+◌, ◌*◌, ◌%◌, ◌^◌}
use Prim.Native.String.{String, ◌++◌ as ◌<>◌}
use mathlib.Core.List.{List, [], ◌∷◌, ◌++◌, map}
use cnr_sandbox.Base.{length, is_empty, if◌then◌else◌, ◌&&◌, ◌||◌, ◌=?◌, Bool}
use cnr_sandbox.Base.Dict.{Dict, insert}
use cnr_sandbox.Base.Exec.{Result, ok, err, Exec, pure, fail, lift, ◌>>=◌, message}

-- `AddrAndBalance`: the bytes of an address, and a big.Int that is not negative.
pub record AddrAndBalance : Type 0 where
  pub addr : String
  pub balance : ℕ

-- genesis.LockedAmount, UnparsedAllocation, UnparsedStaker, UnparsedConfig of avalanchego.
pub record LockedAmount : Type 0 where
  pub amount : ℕ
  pub locktime : ℕ

pub record Allocation : Type 0 where
  pub eth_addr : String
  pub avax_addr : String
  pub initial_amount : ℕ
  pub unlock_schedule : List LockedAmount

pub record Staker : Type 0 where
  pub node_id : String
  reward_address : String
  pub delegation_fee : ℕ

pub record Genesis : Type 0 where
  pub network_id : ℕ
  pub allocations : List Allocation
  start_time : ℕ
  pub initial_staked_funds : List String
  initial_stake_duration : ℕ
  initial_stake_duration_offset : ℕ
  pub message_text : String
  c_chain_genesis : String
  pub initial_stakers : List Staker

-- What it calls: avalanchego's constants (`validatorStake` is `units.MegaAvax`) and address format (the empty text where it fails), random
-- IDs, the clock in seconds, hexadecimal output, and the JSON of the C-Chain's config with these
-- balances and of a genesis.
pub record Library : Type 1 where
  pub State : Type 0
  pub testnet_id : ℕ
  pub mainnet_id : ℕ
  pub local_id : ℕ
  pub mega_avax : ℕ
  pub format_x : ℕ → String → String
  pub short_id : State → String × State
  pub now : State → ℕ × State
  pub hex_of_address : String → String
  pub hex_of_number : ℕ → String
  pub print_c_chain : Dict String → String
  pub print_genesis : Genesis → Result String

abbrev pub zero_eth : String
zero_eth = "0x0000000000000000000000000000000000000000"

abbrev pub lock_seconds : ℕ
lock_seconds = 7 * 24 * 3600

module _ (G : Library) where
  -- The stake of all validators, a uint64.
  unfoldable pub total_stake : List String → ℕ
  total_stake vdrs = length vdrs * G.mega_avax % 2 ^ 64

  unfoldable pub reserved : ℕ → Bool
  reserved id = id =? G.testnet_id || id =? G.mainnet_id || id =? G.local_id

  -- A run of `append` for the balances of the X-Chain; each one reads the clock.
  unfoldable pub x_allocations :
      ℕ → List String → List AddrAndBalance → Exec G.State (List Allocation)
  unfolding total_stake
  x_allocations id vdrs [] s = pure [] s
  x_allocations id vdrs (b ∷ bs) s =
      let (t, u) = G.now s in
      let allocation : Allocation = record {
        eth_addr = zero_eth;
        avax_addr = G.format_x id b.addr;
        initial_amount = b.balance % 2 ^ 64;
        unlock_schedule =
            record { amount = total_stake vdrs; locktime = (t + lock_seconds) % 2 ^ 64 } ∷ [];
      } in
      (x_allocations id vdrs bs >>= λ rest. pure (allocation ∷ rest)) u

  unfoldable c_allocations : List AddrAndBalance → Dict String → Dict String
  unfolding insert
  c_allocations [] d = d
  c_allocations (b ∷ bs) d =
      c_allocations bs
        (insert ("0x" <> G.hex_of_address b.addr) ("0x" <> G.hex_of_number b.balance) d)

  unfoldable pub stakers : String → List String → List Staker
  stakers reward [] = []
  stakers reward (vdr ∷ vdrs) =
      record { node_id = vdr; reward_address = reward; delegation_fee = 10000 }
      ∷ stakers reward vdrs

  unfoldable pub stake_allocation : String → List String → Allocation
  unfolding total_stake
  stake_allocation addr vdrs = record {
    eth_addr = zero_eth;
    avax_addr = addr;
    initial_amount = 0;
    unlock_schedule = record { amount = total_stake vdrs; locktime = 0 } ∷ [];
  }

  unfoldable pub make_genesis :
      ℕ → String → ℕ → List Allocation → List AddrAndBalance → String → List String → Genesis
  unfolding c_allocations stakers stake_allocation
  make_genesis id addr t rest cs reward vdrs = record {
    network_id = id;
    allocations = stake_allocation addr vdrs ∷ rest;
    start_time = t;
    initial_staked_funds = addr ∷ [];
    initial_stake_duration = 31536000;
    initial_stake_duration_offset = 5400;
    message_text = "hello world";
    c_chain_genesis = G.print_c_chain (c_allocations cs []);
    initial_stakers = stakers reward vdrs;
  }

  -- The calls that it makes, in their order.
  unfoldable pub genesis_of :
      ℕ → List AddrAndBalance → List AddrAndBalance → List String → Exec G.State Genesis
  unfolding x_allocations make_genesis
  genesis_of id xs cs vdrs s =
      let (owner, s1) = G.short_id s in
      let (t, s2) = G.now s1 in
      (x_allocations id vdrs xs >>= λ rest s3.
      let (reward, s4) = G.short_id s3 in
      pure (make_genesis id (G.format_x id owner) t rest cs (G.format_x id reward) vdrs) s4)
        s2

  unfoldable pub new_avalanche_go_genesis :
      ℕ → List AddrAndBalance → List AddrAndBalance → List String → Exec G.State String
  unfolding reserved genesis_of
  new_avalanche_go_genesis id xs cs vdrs =
      if reserved id
      then fail (message "network ID can't be mainnet, testnet or local network ID")
      else if is_empty vdrs
      then fail (message "no genesis validators provided")
      else if is_empty xs && is_empty cs
      then fail (message "no genesis balances given")
      else (genesis_of id xs cs vdrs >>= λ g. lift (G.print_genesis g))
