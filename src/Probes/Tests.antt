-- ===== src/Probes/Tests.antt =====
-- A container that seeds a key, and the agreement of its probe with its seed.
use unifi_containers.Prelude.{ℕ, ◌≡◌, Option, none, some, arith, if◌then◌else◌}
use unifi_containers.Text.{Text, codes, text_eq}
use unifi_containers.Settings.{Env, Setting, key_of, admin_pass, seed_api_key}
use unifi_containers.Boot.Settings.Reader.{GivenPlain}
use unifi_containers.Boot.Settings.{config_from_env, seed_owner_env}
use unifi_containers.Boot.Settings.Lines.{read, read_nothing, read_line}
use unifi_containers.Boot.Settings.Handover.{env_of}
use unifi_containers.Probes.{seeded_args}
use unifi_containers.Probes.Agreement.{args_of, seeded_args-config_from_env}

abbrev container : Env
container name =
    if text_eq name (codes "UOS_SEED_API_KEY")
    then some (codes "1")
    else if text_eq name (codes "UOS_ADMIN_PASS")
    then some (codes "a $1 b")
    else none

container-GivenPlain : (s : Setting) → GivenPlain (container (key_of s))
unfolding text_eq key_of
container-GivenPlain admin_pass = omega arith
container-GivenPlain seed_api_key = omega arith
container-GivenPlain s = tt

abbrev as_int : Text → Option ℕ
as_int t = none

seeded_args-config_from_env_example :
    seeded_args container
    ≡ args_of (config_from_env as_int (env_of (read (seed_owner_env container))))
seeded_args-config_from_env_example =
    seeded_args-config_from_env read read_nothing read_line as_int container container-GivenPlain
