-- ===== src/Local/Peers.antt =====
-- `GetFlag` and `SendOutboundMessage` of local/node.go.
use cnr_sandbox.Base.{ℕ, String, ◌<>◌, Bool, Option, none, some, ◌==◌, if◌then◌else◌}
use cnr_sandbox.Base.Dict.{Dict, lookup}
use cnr_sandbox.Base.Exec.{Result, ok, err, Exec, fail, bind_result, wrong_flag_type, message, pure}
use cnr_sandbox.Config.{Value, text, type_name}
use cnr_sandbox.World.{World}
use cnr_sandbox.Local.State.{LocalNode, entries}

string_entry : String → Option Value → Result String
string_entry k none = ok ""
string_entry k (some (text t)) = ok t
string_entry k (some v) = err (wrong_flag_type k "string" (type_name v))

module _ (W : World) where
  -- The config file hides the flags of the node.
  unfoldable get_flag : LocalNode W → String → Result String
  unfolding string_entry lookup
  get_flag node k =
      if node.config.config_file == ""
      then string_entry k (lookup k (entries node.config.flags))
      else bind_result (W.parse_json node.config.config_file) λ file. string_entry k (lookup k file)

module _ {S Peer : Type 0} (send : Peer → ℕ → String → S → Bool × S) where
  send_to : String → String → ℕ → Option Peer → Exec S Bool
  send_to peer content op none s = fail (message ("peer is not attached here: " <> peer)) s
  send_to peer content op (some p) s = let (sent, t) = send p op content s in pure sent t

  -- `peers` is `attachedPeers`.
  unfoldable send_outbound : Dict Peer → String → String → ℕ → Exec S Bool
  unfolding send_to lookup
  send_outbound peers peer content op = send_to peer content op (lookup peer peers)
