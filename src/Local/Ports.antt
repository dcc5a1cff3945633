-- ===== src/Local/Ports.antt =====
-- Ports and configuration entries of local/helpers.go.
pub mod Bounds
use cnr_sandbox.Base.{
  ℕ, zero, suc, ◌+◌, ◌-◌, ◌%◌, ◌^◌, String, Bool, true, false, Option, none, some, if◌then◌else◌, ℤ,
  pos, negsuc,
}
use cnr_sandbox.Base.Dict.{Dict, lookup}
use cnr_sandbox.Base.Exec.{
  Result, ok, err, Exec, pure, fail, lift, ◌>>=◌, wrap_exec, wrong_flag_type, port_not_free,
  message,
}
use cnr_sandbox.Config.{Value, text, int, float, type_name}
use cnr_sandbox.World.{World}

abbrev pub max_port : ℕ
max_port = 65535

abbrev pub min_port : ℕ
min_port = 10000

-- `uint16(i)` of an int.
unfoldable pub int_to_uint16 : ℤ → ℕ
int_to_uint16 (pos n) = n % 2 ^ 16
int_to_uint16 (negsuc n) = 2 ^ 16 - 1 - n % 2 ^ 16

-- One source of a string entry. The error prints the type of the outer variable `entry`, which is a
-- string, and not the type of the value that was found.
entry_text : String → Value → Result String
entry_text flag (text s) = ok s
entry_text flag v = err (wrong_flag_type flag "string" "string")

entry_or : String → Option Value → Result String → Result String
unfolding entry_text
entry_or flag none other = other
entry_or flag (some v) other = entry_text flag v

unfoldable pub get_config_entry : Dict Value → Dict Value → String → String → Result String
unfolding entry_or lookup
get_config_entry flags config_file flag default_val =
    entry_or flag (lookup flag flags) (entry_or flag (lookup flag config_file) (ok default_val))

module _ (W : World) where
  unfoldable pub is_free_port : ℕ → Exec W.State Bool
  is_free_port port s = let (free, s') = W.listen port s in (ok free, s')

  -- The loop, with the number of rounds that its deadline leaves it.
  draw_until : ℕ → Exec W.State ℕ
  draw_until zero s = (err (message "context deadline exceeded"), s)
  draw_until (suc rounds) s =
      let (drawn, s') = W.intn (max_port - min_port + 1) s in
      let port = (drawn + min_port) % 2 ^ 16 in
      let (free, s'') = W.listen port s' in
      elim free [ true ↦ (ok port, s'') | false ↦ draw_until rounds s'' ]

  unfoldable pub get_free_port : Exec W.State ℕ
  unfolding draw_until
  get_free_port s = draw_until (W.polls s) s

  -- The port of a flag, which may be an int or a float64.
  flag_port : String → Value → Result ℕ
  unfolding int_to_uint16
  flag_port key (int z) = ok (int_to_uint16 z)
  flag_port key (float f) = ok (W.float_to_uint16 f)
  flag_port key v = err (wrong_flag_type key "int/float64" (type_name v))

  file_port : String → Value → Result ℕ
  file_port key (float f) = ok (W.float_to_uint16 f)
  file_port key v = err (wrong_flag_type key "float64" (type_name v))

  choose_port : String → Option Value → Option Value → Exec W.State ℕ
  unfolding flag_port file_port get_free_port
  choose_port key (some v) in_file = lift (flag_port key v)
  choose_port key none (some v) = lift (file_port key v)
  choose_port key none none = wrap_exec "couldn't get free port" (get_free_port)

  reassign : Bool → ℕ → Exec W.State ℕ
  unfolding is_free_port get_free_port
  reassign false port = pure port
  reassign true port = do
    free ← is_free_port port
    if free then pure port else wrap_exec "couldn't get free port" (get_free_port)

  unfoldable pub get_port : Dict Value → Dict Value → String → Bool → Exec W.State ℕ
  unfolding choose_port reassign is_free_port lookup
  get_port flags config_file key reassign_if_used = do
    chosen ← choose_port key (lookup key flags) (lookup key config_file)
    port ← reassign reassign_if_used chosen
    free ← is_free_port port
    if free then pure port else fail (port_not_free port)
