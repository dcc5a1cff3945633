-- ===== src/Local/Chain/Tracking.antt =====
-- `restartNodes` of local/blockchain.go: the nodes that take part in new subnets track them and are
-- restarted, as are those whose chain configs changed.
pub mod Sets
use cnr_sandbox.Base.{
  String, Bool, Option, none, some, List, [], ◌∷◌, ◌==◌, if◌then◌else◌, is_empty, not, ◌&&◌, ◌||◌,
}
use cnr_sandbox.Base.Dict.{Dict, lookup, insert, keys}
use cnr_sandbox.Base.Exec.{
  Result, ok, err, crash, Exec, pure, fail, panic, lift, get, ◌>>=◌, ◌>>◌, for_each, bind_result,
  message,
}
use cnr_sandbox.Config.{Value, text, NodeConfig, RestartOptions}
use cnr_sandbox.Config.Specs.{SubnetSpec}
use cnr_sandbox.World.{World}
use cnr_sandbox.Local.State.{LocalNode, System, entries}
use cnr_sandbox.Local.Ledger.{Ledger}
use cnr_sandbox.Local.Health.{healthy}
use cnr_sandbox.Local.Network.Restart.{restart_node}
use cnr_sandbox.Local.Chain.Nodes.{contains, add_member}
use cnr_sandbox.Local.Chain.Files.{put, write_config}

-- `restartNode(ctx, name, "", "", "", nil, nil, nil)`
abbrev pub no_options : RestartOptions
no_options = record {
  binary_path = "";
  plugin_dir = "";
  track_subnets = "";
  chain_configs = [];
  upgrade_configs = [];
  subnet_configs = [];
}

-- The new subnets that a node takes part in.
unfoldable joined_subnets : String → List String → List SubnetSpec → Result (List String)
unfolding contains
joined_subnets name [] specs = ok []
joined_subnets name (id ∷ ids) [] = crash "index out of range"
joined_subnets name (id ∷ ids) (spec ∷ specs) =
    bind_result (joined_subnets name ids specs)
      λ rest. ok (if contains name spec.participants then id ∷ rest else rest)

unfoldable pub add_all : List String → List String → List String
unfolding add_member
add_all [] set = set
add_all (x ∷ xs) set = add_all xs (add_member x set)

unfoldable pub texts {ℓ} : {A : Type ℓ} → (A → String) → List A → List String
texts f [] = []
texts f (x ∷ xs) = f x ∷ texts f xs

-- The value of the flag before, which must be a string.
unfoldable previous_text : Option Value → Result String
previous_text none = ok ""
previous_text (some (text t)) = ok t
previous_text (some v) = err (message "expected node config to have type string")

module _ (W : World) (L : Ledger W) where
  -- The set of subnets that a flag names.
  unfoldable pub tracked_before : String → List String
  unfolding add_all
  tracked_before t = if t == "" then [] else add_all (L.split t) []

  -- The flag that names these subnets in addition.
  unfoldable pub tracked_flag : String → List String → String
  unfolding tracked_before add_all texts
  tracked_flag t ids = L.join_all (L.sort (add_all (texts L.id_text ids) (tracked_before t)))

  -- The flag is written to the config of every node, restarted or not.
  unfoldable track_config : String → List String → NodeConfig → Result NodeConfig
  unfolding put tracked_flag
  track_config t ids c =
      bind_result (put W.track_subnets_key (text (tracked_flag t ids)) c.flags)
        λ flags. ok (record c { flags = flags })

  restart_if : Bool → String → Exec (System W) (Unit {0})
  unfolding restart_node
  restart_if b name = if b then restart_node W no_options name else pure tt

  track_found :
      List String
      → List SubnetSpec
      → List String
      → String
      → Option (LocalNode W)
      → Exec (System W) (Unit {0})
  unfolding previous_text lookup joined_subnets track_config restart_if contains write_config
  track_found ids specs restart name none = panic "nil node"
  track_found ids specs restart name (some node) = do
    t ← lift (previous_text (lookup W.track_subnets_key (entries node.config.flags)))
    mine ← lift (joined_subnets name ids specs)
    write_config W (track_config t mine) name
    restart_if ((not (is_empty mine) || contains name restart) && not node.paused) name

  unfoldable track_node :
      List String → List SubnetSpec → List String → String → Exec (System W) (Unit {0})
  unfolding track_found lookup
  track_node ids specs restart name s =
      track_found ids specs restart name (lookup name s.net.nodes) s

  -- The nodes in the order of their names.
  unfoldable pub restart_nodes :
      List String → List SubnetSpec → List String → Exec (System W) (Unit {0})
  unfolding track_node healthy for_each
  restart_nodes ids specs restart = do
    s ← get
    for_each (L.sort (keys s.net.nodes)) (track_node ids specs restart)
    healthy W L
