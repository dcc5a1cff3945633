-- ===== src/Local/Ports/Bounds.antt =====
-- The ports that `getFreePort` and `getPort` of local/helpers.go come back with.
use cnr_sandbox.Base.{
  ℕ, zero, suc, ◌+◌, ◌%◌, ◌^◌, ◌≤◌, ◌<◌, ◌≡◌, String, Bool, true, false, Option, none, some, arith,
  if◌then◌else◌, ℤ, pos, negsuc, Bool-cases, inl, inr,
}
use cnr_sandbox.Base.Dict.{Dict, lookup}
use cnr_sandbox.Base.Exec.{Exec, pure, fail, ◌>>=◌, ok, err, port_not_free, >>=-eq-ok}
use cnr_sandbox.Config.{Value, int, float}
use cnr_sandbox.World.{World}
use cnr_sandbox.Local.Ports.{
  max_port, min_port, int_to_uint16, draw_until, get_free_port, get_port, is_free_port, reassign,
  choose_port,
}

module _ (W : World) where
  -- `rand.Intn(n)` is below n.
  abbrev pub HasIntn : Type 0
  HasIntn = (n : ℕ) (s : W.State) → 0 < n → (W.intn n s).0 < n

  -- The last listen, in the state before the end, was on this port and it was free.
  pub record WasFree (port : ℕ) (after : W.State) : Type 0 where
    pub before : W.State
    pub free : W.listen port before ≡ (true, after)

  draw_until_range :
      HasIntn
      → (rounds : ℕ) (s : W.State) (port : ℕ) (t : W.State) → draw_until W rounds s ≡ (ok port, t)
      → (min_port ≤ port) × (port ≤ max_port)
  unfolding draw_until
  draw_until_range intn zero s port t h = cc
  draw_until_range intn (suc rounds) s port t h =
      let (drawn, s') = W.intn 55536 s in
      let p = (drawn + min_port) % 2 ^ 16 in
      ground
        (arith, intn 55536 s (omega arith), draw_until_range intn rounds (W.listen p s').1 port t)

  draw_until_free :
      (rounds : ℕ) (s : W.State) (port : ℕ) (t : W.State)
      → draw_until W rounds s ≡ (ok port, t)
      → WasFree port t
  unfolding draw_until
  draw_until_free zero s port t h = cc
  draw_until_free (suc rounds) s port t h =
      let (drawn, s') = W.intn 55536 s in
      let p = (drawn + min_port) % 2 ^ 16 in
      elim (Bool-cases (W.listen p s').0) [
        | inl free ↦ record { before = s'; free = ground arith }
        | inr taken ↦ draw_until_free rounds (W.listen p s').1 port t (ground arith)
      ]

  -- A port that `get_free_port` returns lies in [10000, 65535] and was free when it was last tried, if random draws are below their bound.
  get_free_port_bounds :
      HasIntn
      → (s : W.State) (port : ℕ) (t : W.State) → get_free_port W s ≡ (ok port, t)
      → (min_port ≤ port) × (port ≤ max_port) × WasFree port t
  unfolding get_free_port
  get_free_port_bounds intn s port t h =
      let range = draw_until_range intn (W.polls s) s port t h in
      (range.0, range.1, draw_until_free (W.polls s) s port t h)

  reassign-lt :
      HasIntn
      → (b : Bool) (chosen : ℕ) (s : W.State) (port : ℕ) (t : W.State) → chosen < 2 ^ 16
      → reassign W b chosen s ≡ (ok port, t)
      → port < 2 ^ 16
  unfolding reassign is_free_port
  reassign-lt intn false chosen s port t fits h = ground arith
  reassign-lt intn true chosen s port t fits h =
      let o = W.listen chosen s in
      let g = get_free_port W o.1 in ground (arith, get_free_port_bounds intn o.1 port t)

  -- Every value that is converted to a port becomes one.
  choose_port-lt :
      HasIntn
      → ((f : ℕ) → W.float_to_uint16 f < 2 ^ 16)
      → (key : String) (in_flags in_file : Option Value) (s : W.State) (port : ℕ) (t : W.State)
      → choose_port W key in_flags in_file s ≡ (ok port, t)
      → port < 2 ^ 16
  unfolding choose_port int_to_uint16
  choose_port-lt intn fits key (some (float f)) in_file s port t h = ground (arith, fits f)
  choose_port-lt intn fits key (some (int (pos n))) in_file s port t h = ground arith
  choose_port-lt intn fits key (some (int (negsuc n))) in_file s port t h = ground arith
  choose_port-lt intn fits key (some v) in_file s port t h = cc
  choose_port-lt intn fits key none (some (float f)) s port t h = ground (arith, fits f)
  choose_port-lt intn fits key none (some v) s port t h = cc
  choose_port-lt intn fits key none none s port t h =
      let g = get_free_port W s in ground (arith, get_free_port_bounds intn s port t)

  -- The last check of `getPort`.
  abbrev last_check : ℕ → Exec W.State ℕ
  last_check port = do
    free ← is_free_port W port
    if free then pure port else fail (port_not_free port)

  last_check_bounds :
      (kept : ℕ) (s : W.State) (port : ℕ) (t : W.State)
      → kept < 2 ^ 16
      → last_check kept s ≡ (ok port, t)
      → (port < 2 ^ 16) × WasFree port t
  unfolding is_free_port
  last_check_bounds kept s port t small h = elim (Bool-cases (W.listen kept s).0) [
    | inl free ↦ (ground arith, record { before = s; free = ground arith })
    | inr taken ↦ absurd (ground arith)
  ]

  -- A port that `get_port` returns is a uint16 and was free in the last try, whether it came from the flags, from the config file or from a random draw, if random draws are below their bound and converted floats are uint16.
  pub get_port_bounds :
      HasIntn
      → ((f : ℕ) → W.float_to_uint16 f < 2 ^ 16)
      → (flags config_file : Dict Value) (key : String) (b : Bool) (s : W.State) (port : ℕ)
        (t : W.State)
      → get_port W flags config_file key b s ≡ (ok port, t)
      → (port < 2 ^ 16) × WasFree port t
  unfolding get_port
  get_port_bounds intn fits flags config_file key b s port t h =
      let given = lookup key flags in
      let in_file = lookup key config_file in
      let choice = choose_port W key given in_file in
      let (chosen, u, e, h') = >>=-eq-ok choice (λ c. reassign W b c >>= last_check) s h in
      let (kept, v, e', h'') = >>=-eq-ok (reassign W b chosen) last_check u h' in
      let fit = choose_port-lt intn fits key given in_file s chosen u e in
      last_check_bounds kept v port t (reassign-lt intn b chosen u kept v fit e') h''

  -- An int in the flags whose port is not free is refused with `port_not_free` when ports may not be reassigned.
  get_port_taken :
      (flags config_file : Dict Value) (key : String) (s : W.State) (z : ℤ)
      → lookup key flags ≡ some (int z)
      → (W.listen (int_to_uint16 z) s).0 ≡ false
      → (get_port W flags config_file key false s).0 ≡ err (port_not_free (int_to_uint16 z))
  unfolding get_port choose_port reassign is_free_port
  get_port_taken flags config_file key s z given taken = ground arith
