-- ===== src/Local/Snapshot/Contents.antt =====
-- What `fixDeprecatedAvagoFlags` of local/snapshot.go makes of flags.
use cnr_sandbox.Base.{
  arith, eq_iff, String, Option, none, some, ◌≡◌, refl, sym, ◌==◌, ◌||◌, if◌then◌else◌, false,
}
use cnr_sandbox.Base.Dict.{Dict, insert, lookup, lookup-insert, lookup-erase}
use cnr_sandbox.Base.Exec.{bind_result-eq-ok, ok_injective, ok}
use cnr_sandbox.Config.{Value, text, int, uint16, float, bool, null, array, object}
use cnr_sandbox.World.{World}
use cnr_sandbox.Local.Snapshot.{
  move_flag, fix_deprecated_avago_flags, whitelisted_subnets_key, build_dir_key,
}

-- What stands under the new name of a flag: the changed value from under the old name, where there
-- is one that is not empty, or else what stood there.
abbrev pub migrated : Option Value → (String → String) → Option Value → Option Value
migrated (some (text v)) change new = if v == "" then new else some (text (change v))
migrated old change new = new

-- What moving one flag leaves.
abbrev IsMoved : String → String → (String → String) → Dict Value → Dict Value → Type 0
IsMoved old_key new_key change flags fixed =
    (j : String)
    → lookup j fixed ≡ (
        if old_key == j
        then none
        else if new_key == j
        then migrated (lookup old_key flags) change (lookup j flags)
        else lookup j flags)

move_found :
    (old_key new_key : String) (change : String → String) (x : Option Value)
    (flags fixed : Dict Value)
    → lookup old_key flags ≡ x
    → move_flag old_key new_key change x flags ≡ ok fixed
    → IsMoved old_key new_key change flags fixed
unfolding move_flag
move_found old_key new_key change none flags fixed e h j =
    rw (sym (ok_injective h), e) (ground (arith, eq_iff old_key j))
move_found old_key new_key change (some (text v)) flags fixed e h j =
    rw (sym (ok_injective h), e)
      (ground (
        arith,
        eq_iff old_key j,
        eq_iff new_key j,
        lookup-erase old_key j flags,
        lookup-erase old_key j (insert new_key (text (change v)) flags),
        lookup-insert new_key j (text (change v)) flags,
      ))
move_found old_key new_key change (some (int z)) flags fixed e h j = cc
move_found old_key new_key change (some (uint16 z)) flags fixed e h j = cc
move_found old_key new_key change (some (float z)) flags fixed e h j = cc
move_found old_key new_key change (some (bool z)) flags fixed e h j = cc
move_found old_key new_key change (some null) flags fixed e h j = cc
move_found old_key new_key change (some (array z)) flags fixed e h j = cc
move_found old_key new_key change (some (object z)) flags fixed e h j = cc

module _ (W : World) where
  -- Where the fix succeeds, `whitelisted-subnets` and `build-dir` are gone; a value of the first that is not empty stands under the key of the tracked subnets, one of the second, joined with "plugins", under the key of the plugin directory; without such a value these keys, and all other keys always, have what they had. This is so where the two new keys differ and neither is one of the deprecated names.
  pub fix_deprecated_avago_flags_lem :
      (flags fixed : Dict Value)
      → (W.track_subnets_key == W.plugin_dir_key) ≡ false
      → (whitelisted_subnets_key == W.track_subnets_key) ≡ false
      → (whitelisted_subnets_key == W.plugin_dir_key) ≡ false
      → (W.track_subnets_key == build_dir_key) ≡ false
      → (build_dir_key == W.plugin_dir_key) ≡ false
      → fix_deprecated_avago_flags W flags ≡ ok fixed
      → (j : String)
      → lookup j fixed ≡ (
          if whitelisted_subnets_key == j || build_dir_key == j
          then none
          else if W.track_subnets_key == j
          then migrated (lookup whitelisted_subnets_key flags) (λ v. v) (lookup j flags)
          else if W.plugin_dir_key == j
          then migrated (lookup build_dir_key flags) (λ v. W.join v "plugins") (lookup j flags)
          else lookup j flags)
  unfolding fix_deprecated_avago_flags
  fix_deprecated_avago_flags_lem flags fixed n1 n2 n3 n4 n5 h j =
      let (tracked, h1, h2) =
        bind_result-eq-ok
          (move_flag whitelisted_subnets_key W.track_subnets_key (λ v. v)
            (lookup whitelisted_subnets_key flags) flags)
          (λ t.
            move_flag build_dir_key W.plugin_dir_key (λ v. W.join v "plugins")
              (lookup build_dir_key t) t)
          h in
      let first =
        move_found whitelisted_subnets_key W.track_subnets_key _ _ flags tracked refl h1 in
      let second = move_found build_dir_key W.plugin_dir_key _ _ tracked fixed refl h2 in
      let track = W.track_subnets_key in
      let plugin = W.plugin_dir_key in
      rw (second j, first build_dir_key, first j, n4)
        (ground (
          arith,
          eq_iff whitelisted_subnets_key j,
          eq_iff build_dir_key j,
          eq_iff track j,
          eq_iff plugin j,
          eq_iff track plugin,
          eq_iff whitelisted_subnets_key track,
          eq_iff whitelisted_subnets_key plugin,
          eq_iff build_dir_key track,
          eq_iff build_dir_key plugin,
          eq_iff track build_dir_key,
        ))
