-- ===== src/Tests/Files.antt =====
-- Ports, flags, processes and snapshots in the small world.
use cnr_sandbox.Base.{
  arith, some, ℕ, ◌<◌, ◌^◌, String, true, none, [], ◌∷◌, ◌≡◌, refl, ◌==◌, ◌||◌, if◌then◌else◌, pos,
  ◌⊎◌,
}
use cnr_sandbox.Base.Dict.{Dict, lookup}
use cnr_sandbox.Base.Exec.{ok, Fails}
use cnr_sandbox.Config.{Value, text, int, NodeConfig}
use cnr_sandbox.Local.Ports.{get_port}
use cnr_sandbox.Local.Ports.Bounds.{HasIntn, WasFree, get_port_bounds}
use cnr_sandbox.Local.Args.{get_flags_for_avago_version, build_args, BuildArgsReturn}
use cnr_sandbox.Local.Args.Flags.{lookup-get_flags_for_avago_version, moved}
use cnr_sandbox.Local.Process
use cnr_sandbox.Local.Process.{
  NodeProcess, started, enter, enter_at, finish, Steps, Step, Caller, interrupting, selecting,
  awaiting, returned,
}
use cnr_sandbox.Local.Process.Stopping.{IsOrderly, Steps-IsOrderly}
use cnr_sandbox.Local.Snapshot.{
  fix_deprecated_avago_flags, save_snapshot, whitelisted_subnets_key, build_dir_key,
}
use cnr_sandbox.Local.Snapshot.Contents.{migrated, fix_deprecated_avago_flags_lem}
use cnr_sandbox.Local.Snapshot.Stopping.{save_snapshot_lem}
use cnr_sandbox.Tests.Local.{two-NodupKeys}
use cnr_sandbox.Tests.Surroundings.{world, two, node_config, empty_network}

intn_small : HasIntn world
intn_small n s h = h

abbrev ports : Dict Value
ports = ("http-port", int (pos 9650)) ∷ []

reassigned : get_port world ports [] "http-port" true 0 ≡ (ok 10000, 4)
unfolding get_port
reassigned = refl

small : (f : ℕ) → world.float_to_uint16 f < 2 ^ 16
small f = omega arith

get_port_bounds_example : (10000 < 2 ^ 16) × WasFree world 10000 4
get_port_bounds_example =
    get_port_bounds world intn_small small ports [] "http-port" true 0 10000 4 reassigned

abbrev flags : Dict String
flags = ("plugin-dir", "home/plugins") ∷ ("log-level", "info") ∷ []

lookup-get_flags_for_avago_version_example :
    lookup "build-dir" (get_flags_for_avago_version world "v0.3.0" flags) ≡ (
      if "plugin-dir" == "build-dir" || "track-subnets" == "build-dir"
      then none
      else if "build-dir" == "build-dir"
      then moved
          (lookup "plugin-dir" flags)
          (λ v. world.dir (world.trim_suffix v "/"))
          (lookup "build-dir" flags)
      else if "whitelisted-subnets" == "build-dir"
      then moved (lookup "track-subnets" flags) (λ v. v) (lookup "build-dir" flags)
      else lookup "build-dir" flags)
lookup-get_flags_for_avago_version_example =
    lookup-get_flags_for_avago_version world "v0.3.0" flags "build-dir" refl

abbrev ported : NodeConfig
ported = record node_config {
  flags = some (("http-port", int (pos 9652)) ∷ ("staking-port", int (pos 9653)) ∷ []);
}

built : BuildArgsReturn
unfolding build_args
built = elim (build_args world empty_network "v0.3.0" [] "dir" ported 0).0 [
  | ok r ↦ r
  | x ↦ record {
    args = [];
    api_port = 0;
    p2p_port = 0;
    data_dir = "";
    db_dir = "";
    logs_dir = "";
    plugin_dir = "";
    http_host = "";
  }
]

after_build : ℕ
unfolding build_args
after_build = (build_args world empty_network "v0.3.0" [] "dir" ported 0).1

-- A process that exits while a call of Stop waits for it.
abbrev exited : NodeProcess
exited = record (started true) { exited = true }

stops : Steps (started true) (finish (enter exited))
unfolding started enter enter_at finish
stops =
    Process.then (enter exited) (finish (enter exited))
      (Process.then exited (enter exited)
        (Process.then (started true) exited Process.here (Process.exit (started true)))
        (Process.call exited))
      (Process.notice (enter exited) refl refl)

Steps-IsOrderly_example : IsOrderly (finish (enter exited))
Steps-IsOrderly_example = Steps-IsOrderly true (finish (enter exited)) stops

abbrev old_flags : Dict Value
old_flags = ("whitelisted-subnets", text "subnet") ∷ ("log-level", text "info") ∷ []

abbrev new_flags : Dict Value
new_flags = ("log-level", text "info") ∷ ("track-subnets", text "subnet") ∷ []

fixes : fix_deprecated_avago_flags world old_flags ≡ ok new_flags
unfolding fix_deprecated_avago_flags
fixes = refl

fix_deprecated_avago_flags_lem_example : lookup "track-subnets" new_flags ≡ (
    if whitelisted_subnets_key == "track-subnets" || build_dir_key == "track-subnets"
    then none
    else if world.track_subnets_key == "track-subnets"
    then migrated
        (lookup whitelisted_subnets_key old_flags)
        (λ v. v)
        (lookup "track-subnets" old_flags)
    else if world.plugin_dir_key == "track-subnets"
    then migrated
        (lookup build_dir_key old_flags)
        (λ v. world.join v "plugins")
        (lookup "track-subnets" old_flags)
    else lookup "track-subnets" old_flags)
fix_deprecated_avago_flags_lem_example =
    fix_deprecated_avago_flags_lem world old_flags new_flags refl refl refl refl refl fixes
      "track-subnets"

save_snapshot_lem_example :
    (Fails (save_snapshot world "new" two).0 × ((save_snapshot world "new" two).1 ≡ two))
    ⊎ ((save_snapshot world "new" two).1.net.nodes ≡ [])
save_snapshot_lem_example = save_snapshot_lem world "new" two two-NodupKeys
