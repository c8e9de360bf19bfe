-- ===== src/Boot/Sequence.antt =====
-- `main` of entrypoint/uos.py: everything the boot does before it hands the container to systemd.
-- What it does is kept in order, the latest first, and what it finds is a `Machine`. A file that is
-- written is taken to be written; a start of a child process is taken to succeed.
pub mod Units
use unifi_containers.Prelude.{
  ℕ, Bool, true, false, ◌==◌, ◌&&◌, ◌||◌, Option, none, some, List, [], ◌∷◌, ◌++◌, if◌then◌else◌,
}
use unifi_containers.Prelude.Results.{Result, ok, err, after}
use unifi_containers.Prelude.Loops.{for_each}
use unifi_containers.Text.{Text, codes, text_eq}
use unifi_containers.Settings.{Env, is_enabled}
use unifi_containers.Boot.Settings.{seed_owner_env, readyz_env}
use unifi_containers.Boot.Links.{Kernel, Place, apply_symlinks}
use unifi_containers.Boot.Stamps.{
  ensure_uuid, version_stamp, firmware_platform, detect_arch, or_empty,
}

pub data Action : Type 0 where
  -- The volume's layout, the UUID in force, the files written, the directories made and given
  -- mode 0o755, and the commands: a call of `systemctl` says what it asks, to enable or to disable,
  -- and not what comes of it.
  relinked : List Place → Action
  uuid_ensured : Text → Action
  wrote : Text → Text → Action
  systemctl : Bool → Text → Action
  called spawned : List Text → Action
  made_dir opened : Text → Action
  exec_init : Action

pub data Exception : Type 0 where
  os_error called_process_error : Exception
  value_error runtime_error : Text → Exception

pub record Machine : Type 0 where
  pub kernel : Kernel
  pub places : List Place
  pub uuid_file : Option Text
  pub random_uuid : Text
  pub dpkg : Option (ℕ × Text)
  pub uname : Text
  pub is_dir : Text → Bool
  -- The exit status of a command, by what has been done before.
  pub status : List Text → List Action → ℕ

abbrev pub Boot : Type 0
Boot = List Action → Result Exception (Unit {0}) × List Action

-- One step after the other; an exception ends the boot.
infixl 5 ◌then_do◌
abbrev pub ◌then_do◌ : Boot → Boot → Boot
◌then_do◌ first next t = after (first t) (λ _ t'. next t')

unfoldable pub act : Action → Boot
act a t = (ok tt, a ∷ t)

unfoldable pub nothing_to_do : Boot
nothing_to_do t = (ok tt, t)

-- `UNIT_FLAGS`
abbrev pub unit_flags : List (Text × List Text)
unit_flags =
    (codes "UOS_NETWORK_DIRECT", codes "uos-network-direct.socket" ∷ [])
    ∷ (codes "UOS_SEED_OWNER", codes "uos-seed-owner.service" ∷ [])
    ∷ (codes "UOS_READYZ", codes "uos-readyz.service" ∷ [])
    ∷ []

unfoldable pub enable_each : Bool → List Text → Boot
unfolding act
enable_each wanted = for_each (λ name. act (systemctl wanted name))

-- `enable_units`: the calls of `systemctl`, as they are asked for. Their status is not looked at, and
-- what `main` does not use, the list of units, is left out.
unfoldable pub enable_units : Env → List (Text × List Text) → Boot
unfolding enable_each
enable_units env = for_each (λ unit. enable_each (is_enabled (env unit.0)) unit.1)

unfoldable pub write_seed_owner_env : Env → Boot
unfolding act
write_seed_owner_env env = act (wrote (codes "/run/uos-seed-owner.env") (seed_owner_env env))

unfoldable pub write_readyz_env : Env → Boot
unfolding act
write_readyz_env env = act (wrote (codes "/run/uos-readyz.env") (readyz_env env))

-- The files that `main` writes for the units that are asked for.
unfoldable pub write_unit_files : Env → Boot
unfolding write_seed_owner_env write_readyz_env nothing_to_do
write_unit_files env =
    (if is_enabled (env (codes "UOS_SEED_OWNER")) then write_seed_owner_env env else nothing_to_do)
    then_do (if is_enabled (env (codes "UOS_READYZ")) then write_readyz_env env else nothing_to_do)

unfoldable pub write_stamp : Text → Text → Boot
unfolding act
write_stamp path value = act (wrote path (value ++ b'\n' ∷ []))

unfoldable pub forward_logs : Env → Boot
unfolding act
forward_logs env =
    act (
      spawned (
        codes "sh"
        ∷ codes "-c"
        ∷ codes "while true; do journalctl -f -p warning --no-pager 2>/dev/null; sleep 5; done"
        ∷ []))
    then_do act (
        spawned (
          codes "tail"
          ∷ codes "-F"
          ∷ codes "-n0"
          ∷ codes "/var/log/mongodb/mongodb.log"
          ∷ codes "/usr/lib/unifi/logs/server.log"
          ∷ codes "/usr/lib/unifi/logs/unifi-core.log"
          ∷ []))

unfoldable pub start_log_tail : Env → Boot
unfolding forward_logs nothing_to_do
start_log_tail env = elim (env (codes "FORWARD_SERVICE_LOGS")) [
  | none ↦ forward_logs env
  | some value ↦ if text_eq value (codes "0") then nothing_to_do else forward_logs env
]

-- owner:group and directory of `SERVICE_LOG_DIRS`
abbrev pub service_log_dirs : List (Text × Text)
service_log_dirs =
    (codes "nginx:nginx", codes "/var/log/nginx")
    ∷ (codes "mongodb:mongodb", codes "/var/log/mongodb")
    ∷ (codes "rabbitmq:rabbitmq", codes "/var/log/rabbitmq")
    ∷ []

abbrev pub init_hook_dir : Text
init_hook_dir = codes "/usr/local/uos/init.d"

module _ (m : Machine) where
  unfoldable pub place_volume : Boot
  unfolding act
  place_volume t = elim (apply_symlinks m.kernel m.places) [
    | none ↦ (err os_error, t)
    | some places ↦ act (relinked places) t
  ]

  unfoldable pub persist_uuid : Env → Boot
  unfolding act
  persist_uuid env = act (uuid_ensured (ensure_uuid env m.random_uuid m.uuid_file).0)

  unfoldable pub write_stamps : Env → Boot
  unfolding write_stamp
  write_stamps env t =
      let arch = detect_arch m.dpkg m.uname in
      elim (firmware_platform arch) [
        | none ↦ (err (value_error arch), t)
        | some platform ↦
            (write_stamp (codes "/usr/lib/platform") platform
                then_do write_stamp (codes "/usr/lib/version") (
                    version_stamp (or_empty (env (codes "APP_MODEL")))
                      (or_empty (env (codes "APP_VERSION"))))
                then_do write_stamp (codes "/usr/lib/app_model")
                    (or_empty (env (codes "APP_MODEL")))
                then_do write_stamp (codes "/usr/lib/product_name")
                    (or_empty (env (codes "PRODUCT_NAME"))))
              t
      ]

  -- `subprocess.check_call`
  unfoldable pub check_call : List Text → Boot
  check_call argv t =
      (if m.status argv t == 0 then ok tt else err called_process_error, called argv ∷ t)

  unfoldable pub ensure_eth0_alias : Boot
  unfolding check_call nothing_to_do
  ensure_eth0_alias =
      if m.is_dir (codes "/sys/devices/virtual/net/eth0")
      then nothing_to_do
      else if m.is_dir (codes "/sys/devices/virtual/net/tap0")
      then check_call (
          codes "ip"
          ∷ codes "link"
          ∷ codes "add"
          ∷ codes "name"
          ∷ codes "eth0"
          ∷ codes "link"
          ∷ codes "tap0"
          ∷ codes "type"
          ∷ codes "macvlan"
          ∷ [])
        then_do check_call
            (codes "ip" ∷ codes "link" ∷ codes "set" ∷ codes "eth0" ∷ codes "up" ∷ [])
      else nothing_to_do

  unfoldable pub ensure_dir : Text × Text → Boot
  unfolding act nothing_to_do
  ensure_dir (owner, dir) =
      if m.is_dir dir
      then nothing_to_do
      else act (made_dir dir)
        then_do act (called (codes "chown" ∷ owner ∷ dir ∷ []))
        then_do act (opened dir)

  unfoldable pub ensure_service_dirs : Boot
  unfolding ensure_dir
  ensure_service_dirs =
      for_each ensure_dir service_log_dirs
      then_do act (
          called
            (codes "chown" ∷ codes "-R" ∷ codes "mongodb:mongodb" ∷ codes "/var/lib/mongodb" ∷ []))

  -- The second call of `run-parts`, whose failure ends the boot.
  unfoldable pub run_any_hook : Boot
  run_any_hook t =
      let argv = codes "run-parts" ∷ codes "--regex" ∷ codes ".*" ∷ init_hook_dir ∷ [] in
      (if m.status argv t == 0 then ok tt else err (runtime_error init_hook_dir), called argv ∷ t)

  unfoldable pub run_init_hooks : Boot
  unfolding run_any_hook nothing_to_do
  run_init_hooks t =
      let argv = codes "run-parts" ∷ init_hook_dir ∷ [] in
      let again = run_any_hook (called argv ∷ t) in
      if m.is_dir init_hook_dir
      then (if m.status argv t == 0 then (ok tt, called argv ∷ t) else again)
      else nothing_to_do t

  -- `main` up to `ensure_service_dirs`.
  unfoldable pub prepare : Env → Boot
  unfolding persist_uuid
  prepare env =
      place_volume
      then_do persist_uuid env
      then_do write_stamps env
      then_do ensure_eth0_alias
      then_do ensure_service_dirs

  unfoldable pub main : Env → Boot
  unfolding act
  main env =
      prepare env
      then_do write_unit_files env
      then_do enable_units env unit_flags
      then_do run_init_hooks
      then_do start_log_tail env
      then_do act exec_init
