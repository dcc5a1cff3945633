-- ===== src/Local/Args/Flags.antt =====
-- The flags that a node is started with: their sources in `buildArgs`, and what
-- `getFlagsForAvagoVersion` of local/network.go makes of them for an old binary.
use cnr_sandbox.Base.{
  String, Bool, true, false, ◌||◌, Option, none, some, ◌≡◌, refl, [], ◌∷◌, arith, ap, ◌==◌, eq_iff,
  if◌then◌else◌, first_some, map_some,
}
use cnr_sandbox.Base.Dict.{Dict, lookup, insert, lookup-insert, lookup-erase, lookup-set_all}
use cnr_sandbox.Config.{Value}
use cnr_sandbox.World.{World}
use cnr_sandbox.Local.Args.{
  DeprecatedFlag, old_value, rename_flag, downgrade_flag, get_flags_for_avago_version,
  printed_flags, all_flags,
}

-- A value that moves to another name, unless it is empty.
abbrev pub moved : Option String → (String → String) → Option String → Option String
moved none f old = old
moved (some v) f old = if v == "" then old else some (f v)

abbrev plugin_dir_flag : DeprecatedFlag
plugin_dir_flag = record {
  version = "v0.4.1";
  old_name = "build-dir";
  new_name = "plugin-dir";
  value_map = "parent-dir";
}

abbrev track_subnets_flag : DeprecatedFlag
track_subnets_flag = record {
  version = "v0.4.1";
  old_name = "whitelisted-subnets";
  new_name = "track-subnets";
  value_map = "";
}

module _ (W : World) where
  lookup-rename_flag :
      (info : DeprecatedFlag) (o : Option String) (d : Dict String) (j : String)
      → lookup info.new_name d ≡ o
      → lookup j (rename_flag W info o d) ≡ (
          if info.new_name == j
          then none
          else if info.old_name == j
          then moved o (old_value W info) (lookup j d)
          else lookup j d)
  unfolding rename_flag
  lookup-rename_flag info none d j h = ground (arith, eq_iff info.new_name j)
  lookup-rename_flag info (some v) d j h = ground (
    arith,
    lookup-erase info.new_name j d,
    lookup-erase info.new_name j (insert info.old_name (old_value W info v) d),
    lookup-insert info.old_name j (old_value W info v) d,
  )

  lookup-downgrade_flag :
      (version : String) (info : DeprecatedFlag) (d : Dict String) (j : String)
      → W.version_lt version info.version ≡ true
      → lookup j (downgrade_flag W version info d) ≡ (
          if info.new_name == j
          then none
          else if info.old_name == j
          then moved (lookup info.new_name d) (old_value W info) (lookup j d)
          else lookup j d)
  lookup-downgrade_flag version info d j h =
      unfold downgrade_flag in rw h (lookup-rename_flag info (lookup info.new_name d) d j refl)

  -- A binary from v0.4.1 on gets the flags as they are.
  get_flags_for_avago_version_new :
      (version : String) (given : Dict String)
      → W.version_lt version "v0.4.1" ≡ false
      → get_flags_for_avago_version W version given ≡ given
  unfolding get_flags_for_avago_version
  get_flags_for_avago_version_new version given new = ground arith

  -- One printed flag in front, by what its tests say.
  lookup-printed_flag :
      (pk pj same : Bool) (j k : String) (v : Value) (rest : Dict String) (flags : Dict Value)
      → (k == j) ≡ same
      → (same ≡ true → pk ≡ pj)
      → lookup j rest ≡ (if pj then none else map_some W.print_value (lookup j flags))
      → lookup j (if pk then rest else (k, W.print_value v) ∷ rest)
        ≡ (if pj then none else map_some W.print_value (if same then some v else lookup j flags))
  unfolding lookup
  lookup-printed_flag true true same j k v rest flags e f ih = ih
  lookup-printed_flag true false true j k v rest flags e f ih = cc (f refl)
  lookup-printed_flag true false false j k v rest flags e f ih = ih
  lookup-printed_flag false true true j k v rest flags e f ih = cc (f refl)
  lookup-printed_flag false true false j k v rest flags e f ih = rw e ih
  lookup-printed_flag false false true j k v rest flags e f ih = rw e refl
  lookup-printed_flag false false false j k v rest flags e f ih = rw e ih

  abbrev is_port_key : String → Bool
  is_port_key k = k == W.http_port_key || k == W.staking_port_key

  lookup-printed_flags :
      (j : String) (flags : Dict Value)
      → lookup j (printed_flags W flags)
        ≡ (if is_port_key j then none else map_some W.print_value (lookup j flags))
  unfolding printed_flags lookup
  lookup-printed_flags j [] = ground arith
  lookup-printed_flags j ((k, v) ∷ flags) =
      lookup-printed_flag (is_port_key k) (is_port_key j) (k == j) j k v (printed_flags W flags)
        flags refl (λ e. ap is_port_key ((eq_iff k j).0 e)) (lookup-printed_flags j flags)

  -- Of the three sources that `all_flags` puts together, each flag but the two ports comes from the node config if it is there, else from the files, else from the flags of the runner; for the two ports the node config is passed over here, and the files or the runner's flags count.
  pub lookup-all_flags :
      (runner files : Dict String) (config : Dict Value) (j : String)
      → lookup j (all_flags W runner files config)
        ≡ first_some
            (if j == W.http_port_key || j == W.staking_port_key
              then none
              else map_some W.print_value (lookup j config))
            (first_some (lookup j files) (lookup j runner))
  lookup-all_flags runner files config j =
      unfold all_flags in rw (lookup-set_all, lookup-set_all, lookup-printed_flags) refl

  -- Two renamings, by what the tests of a name say.
  renamed_twice :
      (p t b w : Bool) (f : String → String) (vp vt vj : Option String)
      → (p ≡ true → w ≡ false)
      → (b ≡ true → w ≡ false)
      → (if t
          then none
          else if w
          then moved vt (λ v. v) (if p then none else if b then moved vp f vj else vj)
          else if p
          then none
          else if b
          then moved vp f vj
          else vj)
        ≡ (if p || t
            then none
            else if b
            then moved vp f vj
            else if w
            then moved vt (λ v. v) vj
            else vj)
  renamed_twice true true b w f vp vt vj h k = refl
  renamed_twice true false b true f vp vt vj h k = cc (h refl)
  renamed_twice true false b false f vp vt vj h k = refl
  renamed_twice false true b w f vp vt vj h k = refl
  renamed_twice false false true true f vp vt vj h k = cc (k refl)
  renamed_twice false false true false f vp vt vj h k = refl
  renamed_twice false false false w f vp vt vj h k = refl

  names_apart : (a b j : String) → (a == b) ≡ false → (a == j) ≡ true → (b == j) ≡ false
  names_apart a b j h e = ground (arith, eq_iff a b, eq_iff a j, eq_iff b j)

  -- For a binary before v0.4.1 `plugin-dir` and `track-subnets` are gone, and a value of theirs that is not empty stands under `build-dir`, as its parent directory, and under `whitelisted-subnets`. All other flags are as given.
  pub lookup-get_flags_for_avago_version :
      (version : String) (given : Dict String) (j : String)
      → W.version_lt version "v0.4.1" ≡ true
      → lookup j (get_flags_for_avago_version W version given) ≡ (
          if "plugin-dir" == j || "track-subnets" == j
          then none
          else if "build-dir" == j
          then moved (lookup "plugin-dir" given) (λ v. W.dir (W.trim_suffix v "/")) (lookup j given)
          else if "whitelisted-subnets" == j
          then moved (lookup "track-subnets" given) (λ v. v) (lookup j given)
          else lookup j given)
  unfolding get_flags_for_avago_version old_value
  lookup-get_flags_for_avago_version version given j old =
      rw
        (
          lookup-downgrade_flag version track_subnets_flag
              (downgrade_flag W version plugin_dir_flag given) j old,
          lookup-downgrade_flag version plugin_dir_flag given j old,
          lookup-downgrade_flag version plugin_dir_flag given "track-subnets" old,
        )
        (renamed_twice ("plugin-dir" == j) ("track-subnets" == j) ("build-dir" == j)
          ("whitelisted-subnets" == j) (λ v. W.dir (W.trim_suffix v "/"))
          (lookup "plugin-dir" given) (lookup "track-subnets" given) (lookup j given)
          (names_apart "plugin-dir" "whitelisted-subnets" j refl)
          (names_apart "build-dir" "whitelisted-subnets" j refl))
