-- ===== src/Local/Network/Names.antt =====
-- `setNodeName` and `isPausedNode` of local/network.go.
pub mod Fresh
pub mod Unique
use cnr_sandbox.Base.{
  ℕ, zero, suc, ◌+◌, ◌%◌, ◌^◌, String, ◌<>◌, Bool, false, not, ◌&&◌, Option, none, some, ◌==◌,
  if◌then◌else◌, length, has_value,
}
use cnr_sandbox.Base.Dict.{Dict, lookup}
use cnr_sandbox.Base.Exec.{ok, Exec, pure, fail, panic, get, ◌>>=◌, repeated_node_name}
use cnr_sandbox.Config.{NodeConfig}
use cnr_sandbox.World.{World}
use cnr_sandbox.Local.State.{LocalNode, LocalNetwork, System}

module _ (W : World) where
  abbrev pub default_name : ℕ → String
  default_name k = "node" <> W.print_nat k

  -- The loop that looks for a default name that no node has: the suffix where it ends. The suffix is
  -- a uint64. `none` is out of fuel.
  unfoldable pub fresh_suffix : ℕ → Dict (LocalNode W) → ℕ → Option ℕ
  unfolding lookup
  fresh_suffix zero nodes k = none
  fresh_suffix (suc fuel) nodes k =
      let rest = fresh_suffix fuel nodes ((k + 1) % 2 ^ 64) in
      if has_value (lookup (default_name k) nodes) then rest else some k

  -- Whether a node has this name and is paused.
  paused_at : Option (LocalNode W) → Bool
  paused_at none = false
  paused_at (some node) = node.paused

  unfoldable pub is_paused_node : LocalNetwork W → String → Bool
  unfolding paused_at lookup
  is_paused_node ln name = paused_at (lookup name ln.nodes)

  -- Only a paused node may be started again under its name.
  check_unique : NodeConfig → Exec (System W) NodeConfig
  unfolding is_paused_node lookup
  check_unique c s =
      if has_value (lookup c.name s.net.nodes) && not (is_paused_node s.net c.name)
      then fail (repeated_node_name c.name) s
      else pure c s

  assign_name : NodeConfig → Option ℕ → Exec (System W) NodeConfig
  assign_name c none s = panic "out of fuel" s
  assign_name c (some k) s = (
    ok (record c { name = default_name k }),
    record s { net = record s.net { next_node_suffix = k } },
  )

  unfoldable pub set_node_name : NodeConfig → Exec (System W) NodeConfig
  unfolding fresh_suffix check_unique assign_name
  set_node_name c = do
    s ← get
    let ln = s.net
    let found = fresh_suffix (suc (length ln.nodes)) ln.nodes ln.next_node_suffix
    named ← (if c.name == "" then assign_name c found else pure c)
    check_unique named
