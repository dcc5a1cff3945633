-- ===== src/Tests/Ledger.antt =====
-- A small ledger: every transaction is accepted, every node validates every subnet, and every
-- health check finds its node well.
use Prim.Native.String.{String, [], ◌∷◌}
use cnr_sandbox.Base.{suc, true, false, none, some, [], ◌∷◌, ◌≡◌, refl, ◌==◌, if◌then◌else◌}
use cnr_sandbox.Base.Exec.{ok, external}
use cnr_sandbox.Config.Specs.{SubnetSpec, BlockchainSpec}
use cnr_sandbox.Local.State.{LocalNode, System}
use cnr_sandbox.Local.Ledger.{well, looked, done, Ledger}
use cnr_sandbox.Local.Chain.Tracking.Sets.{SplitsAtCommas}
use cnr_sandbox.Tests.Surroundings.{world, runner, sleeper, empty_network}
use cnr_sandbox.Tests.Commas.{
  split_comma, join_comma, plain, split_comma-join_comma, split_comma-plain, join_comma-nonempty,
  cons_nonempty,
}

-- An ID by its length.
unfoldable pub id_text : String → String
id_text [] = "0"
id_text (c ∷ s) = "1" ∷ id_text s

abbrev pub ledger : Ledger world
ledger = record {
  split = split_comma;
  join_all = join_comma;
  sort = λ xs. xs;
  id_text = id_text;
  id_of_text = λ s. ok (if s == "1111110" then "subnet" else s);
  padded_id = λ s. s;
  primary_network = "";
  now = λ s. (s, suc s);
  ticks = λ s. (2, done (external "deadline"));
  pass = suc;
  schedule = λ s. (looked "node" well ∷ [], suc s);
  get_current_validators = λ uri id s. (ok (record { node_id = "NodeID"; end_time = s } ∷ []), s);
  Tx = String;
  get_tx = λ uri id s. (ok id, s);
  parse_tx = λ bytes. ok bytes;
  PChain = String;
  fetch_state = λ uri s. (ok uri, s);
  Wallet = String;
  make_wallet = λ uri chain txs. uri;
  secret_key_of_bytes = λ bytes. ok bytes;
  proof_of_possession = λ key. key;
  min_validator_stake = 2000;
  issue_add_permissionless_validator = λ w v p fee s. (ok "tx", suc s);
  issue_create_subnet = λ w s. (ok "subnet", suc s);
  issue_add_subnet_validator = λ w v s. (ok "tx", suc s);
  UnsignedTx = String;
  new_create_chain = λ w subnet genesis vm name s. (ok name, s);
  sign_unsigned = λ w tx s. (ok tx, s);
  accept_tx = λ w tx s. (ok tt, suc s);
  tx_id = λ tx. tx;
  issue_tx = λ w tx s. (ok tx, suc s);
  load_vms = λ uri s. (ok [], suc s);
  alias_chain = λ port id name s. (ok tt, suc s);
}

-- A network with a node that runs and a paused one.
abbrev worker : LocalNode world
worker = record runner {
  api_port = 9652;
  p2p_port = 9653;
  config = record runner.config { name = "node" };
}

abbrev pub site : System world
site = record {
  net = record empty_network { nodes = ("node", worker) ∷ ("node|", sleeper) ∷ [] };
  world = 0;
}

abbrev pub subnet_spec : SubnetSpec
subnet_spec = record { participants = "node" ∷ []; subnet_config = some "config" }

abbrev pub chain_spec : BlockchainSpec
chain_spec = record {
  vm_name = "vm";
  genesis = "genesis";
  subnet_id = none;
  subnet_spec = none;
  chain_config = some "chain";
  network_upgrade = none;
  blockchain_alias = "alias";
  per_node_chain_config = [];
}

id_plain : (id : String) → plain (id_text id) ≡ true
unfolding id_text plain
id_plain [] = refl
id_plain (c ∷ s) = id_plain s

id_nonempty : (id : String) → (id_text id == "") ≡ false
unfolding id_text
id_nonempty [] = refl
id_nonempty (c ∷ s) = cons_nonempty "1" (id_text s)

pub ledger-SplitsAtCommas : SplitsAtCommas ledger plain
ledger-SplitsAtCommas = record {
  split_join = split_comma-join_comma;
  split_plain = split_comma-plain;
  join_nonempty = join_comma-nonempty;
  contains-sort = λ x xs. refl;
  id_plain = id_plain;
  id_nonempty = id_nonempty;
}
