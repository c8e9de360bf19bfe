-- ===== src/Probes/Agreement.antt =====
-- The seeded probe and the seed agree on what was seeded.
use unifi_containers.Prelude.{◌≡◌, ap, Option, none, some, [], ◌∷◌, ◌++◌, if◌then◌else◌, sym}
use unifi_containers.Text.{Text}
use unifi_containers.Settings.{Env, Setting, key_of}
use unifi_containers.Boot.Settings.{Config, config_from_env, seed_owner_env}
use unifi_containers.Boot.Settings.Reader.{IsKey, IsPlain, GivenPlain}
use unifi_containers.Boot.Settings.Handover.{Assignments, env_of, config_from_env-seed_owner_env}
use unifi_containers.Probes.{SeededArgs, seeded_args}

-- What a probe of the console is to be asked, by the configuration of its seed.
abbrev pub args_of : {I : Type 0} → Config I → SeededArgs
args_of config = record {
  key_file = if config.seed_api_key then some config.key_file else none;
  username = config.username;
  password = config.password;
}

module _ (read : Text → Assignments) (read_nothing : read [] ≡ [])
    (read_line : (key value rest : Text)
      → IsKey key
      → IsPlain value
      → read (key ++ b'=' ∷ b'\'' ∷ (value ++ b'\'' ∷ b'\n' ∷ rest))
        ≡ (key, value) ∷ read rest) where
  -- The probe, in the container's environment, asks for the account and the key file of the seed's
  -- own configuration, read from its unit's file; for no key file if the seed mints no key. No
  -- setting of the container has a single quote, and of the reader it is taken that it reads a line
  -- KEY='value' without another quote as that value.
  pub seeded_args-config_from_env :
      {I : Type 0} (as_int : Text → Option I) (env : Env)
      → ((s : Setting) → GivenPlain (env (key_of s)))
      → seeded_args env ≡ args_of (config_from_env as_int (env_of (read (seed_owner_env env))))
  unfolding seeded_args config_from_env
  seeded_args-config_from_env as_int env plain =
      ap args_of (sym (config_from_env-seed_owner_env read read_nothing read_line as_int env plain))
