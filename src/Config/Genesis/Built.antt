-- ===== src/Config/Genesis/Built.antt =====
-- The genesis that `NewAvalancheGoGenesis` of network/config.go makes.
use cnr_sandbox.Base.{
  ℕ, ◌+◌, ◌*◌, ◌%◌, ◌^◌, String, false, ◌&&◌, List, [], ◌∷◌, map, ◌≡◌, refl, ap, length, is_empty,
}
use cnr_sandbox.Base.Exec.{ok}
use cnr_sandbox.Config.Genesis.{
  AddrAndBalance, Allocation, Staker, Genesis, Library, total_stake, reserved, x_allocations,
  stakers, stake_allocation, make_genesis, genesis_of, zero_eth, lock_seconds,
  new_avalanche_go_genesis,
}

module _ (G : Library) where
  -- Every balance of the X-Chain has an allocation with its address and its amount, as a uint64.
  abbrev pub AreFunded : ℕ → List AddrAndBalance → List Allocation → Type 0
  AreFunded id [] [] = Unit
  AreFunded id [] (a ∷ as') = ⊥
  AreFunded id (b ∷ bs) [] = ⊥
  AreFunded id (b ∷ bs) (a ∷ as') =
      (a.avax_addr ≡ G.format_x id b.addr)
      × (a.initial_amount ≡ b.balance % 2 ^ 64)
      × AreFunded id bs as'

  funded :
      (id : ℕ) (vdrs : List String) (xs : List AddrAndBalance) (s : G.State)
      → (rest : List Allocation) × (t : G.State) × (x_allocations G id vdrs xs s ≡ (ok rest, t))
        × AreFunded id xs rest
  unfolding x_allocations
  funded id vdrs [] s = ([], s, refl, tt)
  funded id vdrs (b ∷ bs) s =
      let (rest, t, e, good) = funded id vdrs bs (G.now s).1 in
      let made : Allocation = record {
        eth_addr = zero_eth;
        avax_addr = G.format_x id b.addr;
        initial_amount = b.balance % 2 ^ 64;
        unlock_schedule =
            record { amount = total_stake G vdrs; locktime = ((G.now s).0 + lock_seconds) % 2 ^ 64 }
            ∷ [];
      } in
      (made ∷ rest, t, rw e refl, (refl, refl, good))

  node_ids-stakers :
      (reward : String) (vdrs : List String)
      → map (λ (x : Staker). x.node_id) (stakers G reward vdrs) ≡ vdrs
  unfolding stakers
  node_ids-stakers reward [] = refl
  node_ids-stakers reward (vdr ∷ vdrs) =
      ap (λ (vs : List String). vdr ∷ vs) (node_ids-stakers reward vdrs)

  -- The genesis of a network: one staker for each validator, in order; first the allocation that
  -- holds the stake of all of them, as a uint64, then those of the X-Chain.
  abbrev pub IsFor : ℕ → List AddrAndBalance → List String → Genesis → Type 0
  IsFor id xs vdrs g =
      (g.network_id ≡ id)
      × (map (λ (x : Staker). x.node_id) g.initial_stakers ≡ vdrs)
      × ((first : Allocation) × (rest : List Allocation) × (g.allocations ≡ first ∷ rest)
          × (g.initial_staked_funds ≡ first.avax_addr ∷ [])
          × (first.unlock_schedule
              ≡ record { amount = length vdrs * G.mega_avax % 2 ^ 64; locktime = 0 } ∷ [])
          × AreFunded id xs rest)

  built :
      (id : ℕ) (xs cs : List AddrAndBalance) (vdrs : List String) (s : G.State)
      → (g : Genesis) × (t : G.State) × (genesis_of G id xs cs vdrs s ≡ (ok g, t))
        × IsFor id xs vdrs g
  unfolding genesis_of make_genesis stake_allocation total_stake
  built id xs cs vdrs s =
      let (rest, t, e, good) = funded id vdrs xs (G.now (G.short_id s).1).1 in
      (
        make_genesis G id (G.format_x id (G.short_id s).0) (G.now (G.short_id s).1).0 rest cs
            (G.format_x id (G.short_id t).0) vdrs,
        (G.short_id t).1,
        rw e refl,
        (
          refl,
          node_ids-stakers (G.format_x id (G.short_id t).0) vdrs,
          (stake_allocation G (G.format_x id (G.short_id s).0) vdrs, rest, refl, refl, refl, good),
        ),
      )

  -- For an ID that is not one of the public networks or the local one, with a validator and a balance, `NewAvalancheGoGenesis` returns the JSON of a genesis with this ID in which every validator is a staker, in order, the first allocation holds the stake of all of them (as a uint64) and is the one that is staked, and every X-Chain balance has its allocation, with the address and the amount as a uint64.
  pub new_avalanche_go_genesis_lem :
      (id : ℕ) (xs cs : List AddrAndBalance) (vdrs : List String) (s : G.State)
      → reserved G id ≡ false
      → is_empty vdrs ≡ false
      → (is_empty xs && is_empty cs) ≡ false
      → (g : Genesis) × ((new_avalanche_go_genesis G id xs cs vdrs s).0 ≡ G.print_genesis g)
        × IsFor id xs vdrs g
  unfolding new_avalanche_go_genesis
  new_avalanche_go_genesis_lem id xs cs vdrs s e f h =
      let (g, t, made, good) = built id xs cs vdrs s in (g, rw (e, f, h, made) refl, good)
