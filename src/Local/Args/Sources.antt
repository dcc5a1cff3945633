-- ===== src/Local/Args/Sources.antt =====
-- Where `buildArgs` of local/network.go takes the command line of a node from.
use cnr_sandbox.Base.{String, ◌||◌, map, ◌≡◌, ◌==◌, if◌then◌else◌, none, first_some, map_some}
use cnr_sandbox.Base.Dict.{Dict, lookup}
use cnr_sandbox.Base.Exec.{ok, Exec}
use cnr_sandbox.Config.{NodeConfig}
use cnr_sandbox.World.{World}
use cnr_sandbox.Local.State.{LocalNetwork, entries}
use cnr_sandbox.Local.Files.{write_files}
use cnr_sandbox.Local.Args.{BuildArgsReturn, runner_flags, format_arg, get_flags_for_avago_version}

module _ (W : World) where
  -- What a flag of a node is before it is fitted to the version of the binary.
  abbrev pub IsGiven :
      LocalNetwork W → NodeConfig → BuildArgsReturn → Dict String → Dict String → Type 0
  IsGiven ln c r files given =
      (j : String)
      → lookup j given
        ≡ first_some
            (if j == W.http_port_key || j == W.staking_port_key
              then none
              else map_some W.print_value (lookup j (entries c.flags)))
            (first_some (lookup j files)
              (lookup j (runner_flags W ln r.data_dir r.db_dir r.logs_dir r.api_port r.p2p_port)))

  -- What the arguments are made of.
  abbrev pub IsBuilt : LocalNetwork W → String → NodeConfig → BuildArgsReturn → W.State → Type 0
  IsBuilt ln version c r t =
      (files : Dict String) × (given : Dict String) × (u : W.State) × (write_files W ln.network_id
          ln.genesis r.data_dir c u
        ≡ (ok files, t))
      × (r.args ≡ map (format_arg W) (get_flags_for_avago_version W version given))
      × IsGiven ln c r files given
