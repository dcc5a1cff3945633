-- ===== src/Config/Validate/Accepted.antt =====
-- What a config that `Validate` of network/config.go accepts is like.
use cnr_sandbox.Base.{ℕ, Bool, false, ◌||◌, ◌≡◌, ◌≢◌, List, [], ◌∷◌}
use cnr_sandbox.Base.Exec.{ok}
use cnr_sandbox.Config.{NodeConfig}
use cnr_sandbox.Config.Validate.{validate_config_file}
use cnr_sandbox.World.{World}

-- Whether a node is a beacon.
unfoldable pub some_beacon : List NodeConfig → Bool
some_beacon [] = false
some_beacon (c ∷ cs) = c.is_beacon || some_beacon cs

module _ (W : World) where
  -- A node with its staking key and certificate, and a config file that agrees with the network.
  abbrev pub IsAccepted : ℕ → NodeConfig → Type 0
  IsAccepted network_id c =
      (c.staking_key ≢ "")
      × (c.staking_cert ≢ "")
      × (validate_config_file W c.config_file network_id ≡ ok tt)
