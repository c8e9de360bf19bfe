-- ===== src/NetworkBoot/Sequence.antt =====
-- `main` of entrypoint/network.py. `merge` is `sysprops.merge` of a text with the two default ports.
use unifi_containers.Prelude.{Option, none, some, List, [], ◌∷◌, if◌then◌else◌}
use unifi_containers.Prelude.Results.{ok, err, after}
use unifi_containers.Text.{Text, codes, text_eq}
use unifi_containers.Settings.{Env}
use unifi_containers.Readyz.Configured.{Endpoint, off, bad_port, unknown_probe, serving, configured}
use unifi_containers.NetworkBoot.{
  handed_over, umask, endpoint, env_set, called, wrote, supervised, bad_endpoint, bad_jvm_opts, did,
  BootStep, boot_state, clear_readiness_state, Host, run_hooks,
}
use unifi_containers.NetworkBoot.Java.{jvm_opts, java_argv}

infixl 5 ◌then_do◌
abbrev pub ◌then_do◌ : BootStep → BootStep → BootStep
◌then_do◌ first next c = after (first c) (λ _ c'. next c')

unfoldable pub serve : {I : Type 0} → Endpoint I → BootStep
unfolding did
serve off c = (ok tt, c)
serve bad_port c = (err bad_endpoint, c)
serve (unknown_probe name) c = (err bad_endpoint, c)
serve (serving name port) c = (ok tt, did (endpoint c.markers) c)

unfoldable pub apply_vendor_paths : BootStep
unfolding did
apply_vendor_paths c = (
  ok tt,
  did (env_set (codes "UNIFI_RUN_DIR") (codes "/unifi/run")) (
      did (env_set (codes "UNIFI_LOG_DIR") (codes "/unifi/log"))
        (did (env_set (codes "UNIFI_DATA_DIR") (codes "/unifi/data")) c)),
)

module _ (H : Host) (merge : Text → Text) (split : Text → Option (List Text)) where
  unfoldable pub cleared : BootStep
  unfolding did
  cleared c = (ok tt, clear_readiness_state H.removable boot_state (did (umask 23) c))

  -- Its exit status is only logged.
  unfoldable pub vendor_init : BootStep
  unfolding did
  vendor_init c =
      let argv = codes "/usr/sbin/unifi-network-service-helper" ∷ codes "init" ∷ [] in
      (ok tt, if H.has_helper then did (called argv (H.status argv c.trace)) c else c)

  unfoldable pub write_system_properties : BootStep
  unfolding did
  write_system_properties c =
      let existing : Text = elim H.properties [ none ↦ [] | some text ↦ text ] in
      (
        ok tt,
        if text_eq (merge existing) existing
            then c
            else did (wrote (codes "/unifi/data/system.properties") (merge existing)) c,
      )

  unfoldable pub supervise : Env → BootStep
  unfolding did
  supervise env c = elim (java_argv split (jvm_opts split H.system_env env)) [
    | none ↦ (err bad_jvm_opts, c)
    | some argv ↦ (ok tt, did (supervised argv) c)
  ]

  module _ {I : Type 0} (as_int : Text → Option I) (default_port : I) where
    -- `main` for the controller.
    unfoldable pub start : Env → BootStep
    unfolding cleared serve
    start env =
        cleared
        then_do serve (configured as_int default_port env)
        then_do apply_vendor_paths
        then_do vendor_init
        then_do write_system_properties
        then_do run_hooks H
        then_do supervise env

    unfoldable pub main : List Text → Env → BootStep
    unfolding start did
    main [] env c = start env c
    main (command ∷ rest) env c =
        let started = start env c in
        if text_eq command (codes "unifi")
        then started
        else (ok tt, did (handed_over (command ∷ rest)) c)
