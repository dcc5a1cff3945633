-- ===== src/Client/Sent.antt =====
-- What the server makes of the options of a call of client/client.go.
use cnr_sandbox.Base.{
  ℕ, ◌%◌, ◌^◌, arith, eq_iff, String, Bool, false, Option, none, some, List, [], ◌∷◌, ◌≡◌, refl, ap,
  ◌∙◌, if◌then◌else◌, or_default, is_empty, length,
}
use cnr_sandbox.Base.Dict.{Dict}
use cnr_sandbox.Server.Backend.{Backend}
use cnr_sandbox.Server.Control.{node_count, start_options}
use cnr_sandbox.Server.Control.Base.{Server}
use cnr_sandbox.Client.{
  OpOption, with_global_node_config, with_num_nodes, with_whitelisted_subnets, with_track_subnets,
  with_plugin_dir, with_chain_configs, with_upgrade_configs, with_subnet_configs,
  with_custom_node_configs, with_reassign_ports_if_used, with_dynamic_ports, Op, apply_opt,
  apply_opts, empty_op, sent, start_request,
}

-- The last option of a kind, or what stands where there is none.
unfoldable pub last_or {ℓ} : {A : Type ℓ} → A → (OpOption → Option A) → List OpOption → A
last_or d chosen [] = d
last_or d chosen (o ∷ os) = last_or (or_default d (chosen o)) chosen os

last_or-apply_opts {ℓ} :
    {A : Type ℓ}
    → (field : Op → A) → (chosen : OpOption → Option A)
    → ((o : OpOption) (op : Op) → field (apply_opt o op) ≡ or_default (field op) (chosen o))
    → (opts : List OpOption) (op : Op) → field (apply_opts opts op) ≡ last_or (field op) chosen opts
unfolding apply_opts last_or
last_or-apply_opts field chosen step [] op = refl
last_or-apply_opts field chosen step (o ∷ os) op =
    last_or-apply_opts field chosen step os (apply_opt o op)
    ∙ ap (λ d. last_or d chosen os) (step o op)

sent_lem : (v : String) → sent v ≡ v
unfolding sent
sent_lem v = ground (arith, eq_iff v "")

-- What each kind of option is for.
abbrev pub nodes : OpOption → Option ℕ
nodes (with_num_nodes v) = some v
nodes o = none

abbrev pub tracked : OpOption → Option String
tracked (with_whitelisted_subnets v) = some v
tracked (with_track_subnets v) = some v
tracked o = none

abbrev pub node_config : OpOption → Option String
node_config (with_global_node_config v) = some v
node_config o = none

abbrev plugins : OpOption → Option String
plugins (with_plugin_dir v) = some v
plugins o = none

abbrev pub custom : OpOption → Option (Dict String)
custom (with_custom_node_configs v) = some v
custom o = none

abbrev pub chains : OpOption → Option (Dict String)
chains (with_chain_configs v) = some v
chains o = none

abbrev pub upgrades : OpOption → Option (Dict String)
upgrades (with_upgrade_configs v) = some v
upgrades o = none

abbrev pub subnets : OpOption → Option (Dict String)
subnets (with_subnet_configs v) = some v
subnets o = none

abbrev reassigns : OpOption → Option Bool
reassigns (with_reassign_ports_if_used v) = some v
reassigns o = none

abbrev dynamic : OpOption → Option Bool
dynamic (with_dynamic_ports v) = some v
dynamic o = none

module _ (B : Backend) where
  -- The number of nodes that a caller asks for: the custom node configs decide it where there are any.
  abbrev nodes_asked : List OpOption → ℕ
  nodes_asked opts =
      if is_empty (last_or [] custom opts)
      then last_or 5 nodes opts
      else length (last_or [] custom opts) % 2 ^ 32

  -- The options of the network that the server starts for a call of the client's `Start` are the last ones of their kind among those of the caller, or the defaults; without custom node configs and WithNumNodes it has five nodes.
  pub start_request_lem :
      (s : Server B) (exec_path root_data_dir : String) (opts : List OpOption)
      → start_options B s (start_request exec_path opts) root_data_dir ≡ record {
        exec_path = exec_path;
        root_data_dir = root_data_dir;
        num_nodes = nodes_asked opts;
        track_subnets = last_or "" tracked opts;
        redirect_nodes_output = s.redirect_nodes_output;
        global_node_config = last_or "" node_config opts;
        plugin_dir = last_or "" plugins opts;
        custom_node_configs = last_or [] custom opts;
        chain_configs = last_or [] chains opts;
        upgrade_configs = last_or [] upgrades opts;
        subnet_configs = last_or [] subnets opts;
        snapshots_dir = s.snapshots_dir;
        reassign_ports_if_used = last_or false reassigns opts;
        dynamic_ports = last_or false dynamic opts;
      }
  unfolding start_options start_request node_count apply_opt
  start_request_lem s exec_path root_data_dir opts =
      let initial = record empty_op { num_nodes = 5 } in
      let op = apply_opts opts initial in
      rw
        (
          sent_lem op.track_subnets,
          sent_lem op.global_node_config,
          sent_lem op.plugin_dir,
          last_or-apply_opts (λ p. p.num_nodes) nodes (λ o p. ground arith) opts initial,
          last_or-apply_opts (λ p. p.track_subnets) tracked (λ o p. ground arith) opts initial,
          last_or-apply_opts (λ p. p.global_node_config) node_config (λ o p. ground arith) opts
              initial,
          last_or-apply_opts (λ p. p.plugin_dir) plugins (λ o p. ground arith) opts initial,
          last_or-apply_opts (λ p. p.custom_node_configs) custom (λ o p. ground arith) opts initial,
          last_or-apply_opts (λ p. p.chain_configs) chains (λ o p. ground arith) opts initial,
          last_or-apply_opts (λ p. p.upgrade_configs) upgrades (λ o p. ground arith) opts initial,
          last_or-apply_opts (λ p. p.subnet_configs) subnets (λ o p. ground arith) opts initial,
          last_or-apply_opts (λ p. p.reassign_ports_if_used) reassigns (λ o p. ground arith) opts
              initial,
          last_or-apply_opts (λ p. p.dynamic_ports) dynamic (λ o p. ground arith) opts initial,
        )
        refl
