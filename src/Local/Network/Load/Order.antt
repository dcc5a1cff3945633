-- ===== src/Local/Network/Load/Order.antt =====
-- The order in which `loadConfig` of local/network.go starts the nodes.
use mathlib.Core.List.{Perm, perm_middle}
use mathlib.Core.List.Perm
use cnr_sandbox.Base.{
  Bool, true, false, ◌≡◌, refl, List, [], ◌∷◌, ◌++◌, All, arith, not, if◌then◌else◌,
}
use cnr_sandbox.Config.{NodeConfig}
use cnr_sandbox.Local.Network.Load.{select, start_order}

select-All :
    (beacon : Bool) (cs : List NodeConfig) → All (λ c. c.is_beacon ≡ beacon) (select beacon cs)
unfolding select
select-All beacon [] = tt
select-All true (c ∷ cs) = ground (arith, select-All true cs)
select-All false (c ∷ cs) = ground (arith, select-All false cs)

place :
    (b : Bool) (c : NodeConfig) (trues falses cs : List NodeConfig)
    → Perm (trues ++ falses) cs
    → Perm ((if b then c ∷ trues else trues) ++ (if not b then c ∷ falses else falses)) (c ∷ cs)
place true c trues falses cs h = Perm.cons c h
place false c trues falses cs h = Perm.trans (perm_middle trues falses) (Perm.cons c h)

select_perm : (cs : List NodeConfig) → Perm (select true cs ++ select false cs) cs
unfolding select
select_perm [] = Perm.refl []
select_perm (c ∷ cs) = place c.is_beacon c (select true cs) (select false cs) cs (select_perm cs)

-- Every node of the config is started once, the beacons before the others: the order is a permutation of the configs, of a list of beacons followed by a list of nodes that are none.
pub start_order_lem :
    (cs : List NodeConfig)
    → Perm (start_order cs) cs
      × ((beacons : List NodeConfig) × (others : List NodeConfig) × (start_order cs
            ≡ beacons ++ others)
          × All (λ c. c.is_beacon ≡ true) beacons
          × All (λ c. c.is_beacon ≡ false) others)
unfolding start_order
start_order_lem cs = (
  select_perm cs,
  (select true cs, select false cs, refl, select-All true cs, select-All false cs),
)
