-- ===== src/Readyz/Configured.antt =====
-- `configured` of readyz.py: which probe an image serves, and on which port. `I` is Python's `int`.
use unifi_containers.Prelude.{Option, none, some, List, [], ◌∷◌, if◌then◌else◌}
use unifi_containers.Text.{Text, codes, is_in}
use unifi_containers.Pins.{truthy}
use unifi_containers.Settings.{Env, is_enabled}

-- The names of `PROBES`.
abbrev pub probes : List Text
probes =
    codes "uos"
    ∷ codes "sim"
    ∷ codes "seeded"
    ∷ codes "network"
    ∷ codes "network-sim"
    ∷ codes "network-seeded"
    ∷ []

abbrev pub probe_var : Text
probe_var = codes "READYZ_PROBE"

abbrev pub port_var : Text
port_var = codes "READYZ_PORT"

abbrev pub disable_var : Text
disable_var = codes "READYZ_DISABLE"

-- What the image serves; the two errors are ValueErrors.
pub data Endpoint (I : Type 0) : Type 0 where
  off bad_port : Endpoint I
  unknown_probe : Text → Endpoint I
  serving : Text → I → Endpoint I

module _ {I : Type 0} (as_int : Text → Option I) (default_port : I) where
  -- `int(env.get(PORT_VAR) or DEFAULT_PORT)`
  unfoldable pub on_port : Text → Option Text → Endpoint I
  on_port name none = serving name default_port
  on_port name (some port) = elim (as_int port) [ none ↦ bad_port | some n ↦ serving name n ]

  unfoldable pub named : Option Text → Option Text → Endpoint I
  unfolding on_port
  named none port = off
  named (some name) port = if is_in name probes then on_port name port else unknown_probe name

  unfoldable pub configured : Env → Endpoint I
  unfolding named
  configured env =
      if is_enabled (env disable_var)
      then off
      else named (truthy (env probe_var)) (truthy (env port_var))
