-- ===== src/Boot/Tests.antt =====
-- The theorems on the boot at examples.
use unifi_containers.Prelude.{
  ◌⊎◌, All, arith, List, ℕ, ◌≡◌, refl, true, false, Option, none, some, [], ◌∷◌, if◌then◌else◌,
}
use unifi_containers.Text.{Text, codes, text_eq}
use unifi_containers.Settings.{Env, is_enabled, Setting, key_of, console_name}
use unifi_containers.Boot.Settings.{seed_owner_env, readyz_env, readyz_keys, config_from_env}
use unifi_containers.Boot.Settings.Lines.{read, read_nothing, read_line}
use unifi_containers.Boot.Settings.Readiness.{never_disabled, configured-readyz_env}
use unifi_containers.Boot.Settings.Reader.{GivenPlain}
use unifi_containers.Readyz.Configured.{configured}
use unifi_containers.Boot.Settings.Handover.{env_of, config_from_env-seed_owner_env}
use unifi_containers.Pins.{truthy}
use unifi_containers.Boot.Links.{
  Kernel, Place, Target, Entries, file, directory, nothing, entry, volume, root, made, existed,
  find, copied, mirror, apply_plan, apply_symlinks,
}
use unifi_containers.Boot.Links.Mirror.{IsForest}
use unifi_containers.Boot.Links.Merge.{first_of}
use unifi_containers.Boot.Links.Places.{
  linked, apply_plan-first_of, apply_symlinks_settled, apply_plan_keeps,
}
use unifi_containers.Text.Words.{trim, is_space}
use unifi_containers.Prelude.Loops.{for_each}
use unifi_containers.Boot.Sequence.{
  prepare, place_volume, write_stamps, ensure_eth0_alias, ensure_service_dirs, write_unit_files,
  enable_units, run_init_hooks, start_log_tail, Machine, Action, main,
}
use unifi_containers.Boot.Sequence.Units.{last_request, text_of, main_requested}
use unifi_containers.Boot.Stamps.{firmware_platform, detect_arch}

-- A console's name with a space and a backslash in it, and a port.
abbrev container : Env
container name =
    if text_eq name (codes "UOS_CONSOLE_NAME")
    then some (codes "Bob\\site 2")
    else if text_eq name (codes "READYZ_PORT")
    then some (codes "9000")
    else none

container-GivenPlain : (s : Setting) → GivenPlain (container (key_of s))
unfolding text_eq key_of
container-GivenPlain console_name = omega arith
container-GivenPlain s = tt

abbrev as_int : Text → Option ℕ
as_int t = none

config_from_env-seed_owner_env_example :
    config_from_env as_int (env_of (read (seed_owner_env container)))
    ≡ config_from_env as_int container
config_from_env-seed_owner_env_example =
    config_from_env-seed_owner_env read read_nothing read_line as_int container container-GivenPlain

-- It is asked to serve nothing.
abbrev disabled : Env
disabled name =
    if text_eq name (codes "READYZ_DISABLE")
    then some (codes "true")
    else if text_eq name (codes "READYZ_PROBE")
    then some (codes "uos")
    else none

disabled-GivenPlain : All (λ key. GivenPlain (disabled key)) readyz_keys
unfolding text_eq
disabled-GivenPlain = omega arith

configured-readyz_env_example :
    configured as_int 9099 (env_of (read (readyz_env disabled)))
    ≡ configured as_int 9099 (never_disabled disabled)
configured-readyz_env_example =
    configured-readyz_env read read_nothing read_line as_int 9099 disabled disabled-GivenPlain

abbrev kernel : Kernel
kernel = record {
  may = λ p. true;
  fault = λ n. none;
  leftover = λ x. none;
  makes = λ p. true;
  relinks = λ p. true;
}

-- A log of the image, owned by 105, and one that the volume has.
abbrev image_logs : Entries
image_logs =
    entry (codes "mongodb")
      (directory (105, 107) (entry (codes "mongodb.log") (file (105, 107) []) nothing))
      (entry (codes "wtmp") (file (0, 43) (codes "new")) nothing)

abbrev volume_logs : Entries
volume_logs = entry (codes "wtmp") (file (0, 43) (codes "old")) nothing

image_logs-IsForest : IsForest image_logs
unfolding IsForest text_eq
image_logs-IsForest = ((tt, tt, tt), (refl, tt), (tt, tt, tt))

abbrev logs : Target → Place
logs t = record {
  target_path = codes "/unifi/logs";
  original = some (directory root image_logs);
  target = t;
}

apply_plan-first_of_example :
    (merged : Entries) × (apply_plan kernel (logs (volume 448 (7, 7) volume_logs))
      ≡ some (linked (codes "/unifi/logs") (7, 7) merged))
    × ((name : Text) → find name merged ≡ first_of (find name volume_logs) (find name image_logs))
unfolding made existed
apply_plan-first_of_example =
    apply_plan-first_of kernel (codes "/unifi/logs") root (7, 7) image_logs volume_logs
      (volume 448 (7, 7) volume_logs) refl (λ p. refl) (λ n. refl) (λ x. refl) refl refl
      image_logs-IsForest

abbrev laid_out : List Place
laid_out =
    linked (codes "/unifi/logs") (7, 7)
      (entry (codes "mongodb")
        (directory (105, 107) (entry (codes "mongodb.log") (file (105, 107) []) nothing))
        volume_logs)
    ∷ []

abbrev broken : Kernel
broken = record {
  may = λ p. false;
  fault = λ n. some none;
  leftover = λ x. some x;
  makes = λ p. true;
  relinks = λ p. true;
}

apply_symlinks_settled_example : apply_symlinks broken laid_out ≡ some laid_out
unfolding apply_symlinks apply_plan find copied text_eq mirror
apply_symlinks_settled_example =
    apply_symlinks_settled kernel broken (logs (volume 448 (7, 7) volume_logs) ∷ []) laid_out refl
      (λ p. refl) (λ p. refl)

abbrev half : Kernel
half = record {
  may = λ p. true;
  fault = λ n. some none;
  leftover = λ x. none;
  makes = λ p. true;
  relinks = λ p. true;
}

apply_plan_keeps_example :
    (kept : Entries) × (linked (codes "/unifi/logs") (7, 7) volume_logs
      ≡ linked (codes "/unifi/logs") (7, 7) kept)
    × ((name : Text) → find name kept ≡ first_of (find name volume_logs) (find name kept))
unfolding apply_plan find text_eq
apply_plan_keeps_example =
    apply_plan_keeps half (codes "/unifi/logs") (some (directory root image_logs)) 448 (7, 7)
      volume_logs (linked (codes "/unifi/logs") (7, 7) volume_logs) refl

abbrev machine : Machine
machine = record {
  kernel = kernel;
  places = logs (volume 448 (7, 7) volume_logs) ∷ [];
  uuid_file = none;
  random_uuid = codes "0b1f1c1a-0000-4000-8000-000000000000";
  dpkg = some (0, codes "amd64");
  uname = codes "x86_64";
  is_dir = λ path. false;
  status = λ argv t. 0;
}

abbrev seeding : Env
seeding name = if text_eq name (codes "UOS_SEED_OWNER") then some (codes "true") else none

abbrev booted : List Action
booted = (main machine seeding []).1

main_requested_example :
    (last_request (codes "uos-seed-owner.service") booted ≡ some true)
    × (last_request (codes "uos-readyz.service") booted ≡ some false)
    × (last_request (codes "uos-network-direct.socket") booted ≡ some false)
    × ((true ≡ false)
        ⊎ (text_of (codes "/run/uos-seed-owner.env") booted ≡ some (seed_owner_env seeding)))
    × ((false ≡ false) ⊎ (text_of (codes "/run/uos-readyz.env") booted ≡ some (readyz_env seeding)))
unfolding main text_eq is_enabled prepare place_volume apply_symlinks write_stamps firmware_platform
    detect_arch truthy trim is_space ensure_eth0_alias ensure_service_dirs for_each write_unit_files
    enable_units run_init_hooks start_log_tail
main_requested_example = main_requested machine seeding booted refl

abbrev kernel_uuid : Text
kernel_uuid = codes "0b1f1c1a-0000-4000-8000-000000000000"
