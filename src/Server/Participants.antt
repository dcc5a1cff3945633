-- ===== src/Server/Participants.antt =====
-- `VerifySubnetHasCorrectParticipants` of utils/utils.go.
use cnr_sandbox.Base.{
  arith, eq_iff, String, Bool, true, false, ◌||◌, Option, none, some, List, [], ◌∷◌, ◌==◌, ◌≡◌,
  if◌then◌else◌, or_default, Bool-cases, inl, inr,
}
use cnr_sandbox.Base.Dict.{lookup}
use cnr_sandbox.Server.State.{ClusterInfo}

unfoldable node_is_in_list : String → List String → Bool
node_is_in_list node [] = false
node_is_in_list node (validator ∷ validators) = validator == node || node_is_in_list node validators

all_in_list : List String → List String → Bool
unfolding node_is_in_list
all_in_list [] validators = true
all_in_list (node ∷ nodes) validators =
    let rest = all_in_list nodes validators in
    if node_is_in_list node validators then rest else false

-- A subnet that the cluster does not know has no participants.
unfoldable verify_subnet_has_correct_participants : List String → Option ClusterInfo → String → Bool
unfolding all_in_list lookup
verify_subnet_has_correct_participants nodes none subnet = false
verify_subnet_has_correct_participants nodes (some cluster) subnet =
    all_in_list nodes (or_default [] (lookup subnet cluster.subnet_participants))

all_in_list_lem :
    (nodes validators : List String) (node : String)
    → all_in_list nodes validators ≡ true
    → node_is_in_list node nodes ≡ true
    → node_is_in_list node validators ≡ true
unfolding all_in_list node_is_in_list
all_in_list_lem [] validators node h m = cc
all_in_list_lem (n ∷ nodes) validators node h m = elim (Bool-cases (n == node)) [
  | inl same ↦ rw (← (eq_iff n node).0 same) (ground arith)
  | inr other ↦ all_in_list_lem nodes validators node (ground arith) (ground arith)
]

-- A check that succeeds for a cluster has found every one of the nodes among the participants of the
-- subnet.
verify_subnet_lem :
    (nodes : List String) (cluster : ClusterInfo) (subnet node : String)
    → verify_subnet_has_correct_participants nodes (some cluster) subnet ≡ true
    → node_is_in_list node nodes ≡ true
    → node_is_in_list node (or_default [] (lookup subnet cluster.subnet_participants)) ≡ true
unfolding verify_subnet_has_correct_participants
verify_subnet_lem nodes cluster subnet node h m =
    all_in_list_lem nodes (or_default [] (lookup subnet cluster.subnet_participants)) node h m
