-- ===== src/NetworkBoot/Tests.antt =====
-- A restarted container with a marker left and two hooks, and the theorems on its boot.
use unifi_containers.Prelude.{ℕ, refl, true, Option, none, some, List, [], ◌∷◌, All, if◌then◌else◌}
use unifi_containers.Text.{Text, codes, text_eq, is_in}
use unifi_containers.Settings.{Env}
use unifi_containers.NetworkBoot.{Container, Host, run_hooks}
use unifi_containers.NetworkBoot.Sequence.{main}
use unifi_containers.NetworkBoot.Cleared.{Unseen, main-Unseen}

abbrev hooks : List Text
hooks = codes "seed" ∷ codes "README.md" ∷ codes "demo-mode" ∷ []

abbrev host : Host
host = record {
  hook_names = some hooks;
  is_executable = λ path. true;
  status = λ argv trace. 0;
  removable = λ path. true;
  has_helper = true;
  properties = none;
  system_env = none;
}

abbrev env : Env
env name = if text_eq name (codes "READYZ_PROBE") then some (codes "network") else none

abbrev as_int : Text → Option ℕ
as_int t = none

abbrev split : Text → Option (List Text)
split t = some (t ∷ [])

abbrev left_over : List Text
left_over = codes "/tmp/unifi-ready" ∷ []

main-Unseen_example :
    All
      (Unseen (codes "/tmp/unifi-ready"))
      (main host
        (λ t. t)
        split
        as_int
        9099
        (codes "unifi" ∷ [])
        env
        (record { markers = left_over; trace = [] })).1.trace
unfolding is_in text_eq
main-Unseen_example =
    main-Unseen host (λ t. t) split as_int 9099 (codes "unifi" ∷ []) env left_over
      (codes "/tmp/unifi-ready") refl refl

abbrev at_hooks : Container
at_hooks = record { markers = []; trace = [] }

abbrev behind : Container
behind = (run_hooks host at_hooks).1
