-- ===== src/Boot/Sequence/Units.antt =====
-- What a boot last asks of `systemctl` for its units, and last writes to the files that they read.
use unifi_containers.Prelude.{
  subst, sym, ◌≡◌, refl, ap, ◌∙◌, ◌⊎◌, Bool, true, false, ◌==◌, Option, none, some, List, [], ◌∷◌,
  if◌then◌else◌, Option-cases, Bool-cases, inl, inr,
}
use unifi_containers.Prelude.Results.{Result, ok, after-eq-ok}
use unifi_containers.Prelude.Loops.{for_each}
use unifi_containers.Text.{Text, codes, text_eq}
use unifi_containers.Settings.{Env, is_enabled}
use unifi_containers.Boot.Settings.{seed_owner_env, readyz_env}
use unifi_containers.Boot.Sequence.{
  write_unit_files, prepare, Action, Exception, relinked, uuid_ensured, wrote, systemctl, called,
  spawned, made_dir, opened, exec_init, Machine, Boot, main, act, nothing_to_do, unit_flags,
  enable_units, start_log_tail, run_any_hook, run_init_hooks, init_hook_dir, write_seed_owner_env,
  write_readyz_env, ◌then_do◌,
}

-- What the last call of `systemctl` for that unit asks: to enable it, or to disable it.
unfoldable pub last_request : Text → List Action → Option Bool
last_request name [] = none
last_request name (systemctl wanted unit ∷ t) =
    let rest = last_request name t in if text_eq unit name then some wanted else rest
last_request name (relinked places ∷ t) = last_request name t
last_request name (uuid_ensured uuid ∷ t) = last_request name t
last_request name (wrote path text ∷ t) = last_request name t
last_request name (called argv ∷ t) = last_request name t
last_request name (spawned argv ∷ t) = last_request name t
last_request name (made_dir path ∷ t) = last_request name t
last_request name (opened path ∷ t) = last_request name t
last_request name (exec_init ∷ t) = last_request name t

-- The text of a file, as it was last written.
unfoldable pub text_of : Text → List Action → Option Text
text_of path [] = none
text_of path (wrote at text ∷ t) =
    let rest = text_of path t in if text_eq at path then some text else rest
text_of path (systemctl wanted unit ∷ t) = text_of path t
text_of path (relinked places ∷ t) = text_of path t
text_of path (uuid_ensured uuid ∷ t) = text_of path t
text_of path (called argv ∷ t) = text_of path t
text_of path (spawned argv ∷ t) = text_of path t
text_of path (made_dir dir ∷ t) = text_of path t
text_of path (opened dir ∷ t) = text_of path t
text_of path (exec_init ∷ t) = text_of path t

-- No call of `systemctl` and no written file is between them.
abbrev Same : List Action → List Action → Type 0
Same t t' =
    ((name : Text) → last_request name t' ≡ last_request name t)
    × ((path : Text) → text_of path t' ≡ text_of path t)

Same-end :
    (t u t' : List Action)
    → ◌≡◌ {A = Result Exception (Unit {0}) × List Action} (ok tt, u) (ok tt, t')
    → Same t u
    → Same t t'
Same-end t u t' h same = subst (λ v. Same t v) (ap (λ p. p.1) h) same

then_do-ok :
    (f g : Boot) (t u : List Action)
    → ◌then_do◌ f g t ≡ (ok tt, u)
    → (v : List Action) × (f t ≡ (ok tt, v)) × (g v ≡ (ok tt, u))
then_do-ok f g t u h =
    let (_, v, first, rest) = after-eq-ok (f t) (λ _ t'. g t') h in (v, first, rest)

off_or : {P : Type 0} (b : Bool) → (b ≡ true → P) → (b ≡ false) ⊎ P
off_or true h = inr (h refl)
off_or false h = inl refl

Same-trans : (t u v : List Action) → Same t u → Same u v → Same t v
Same-trans t u v (units, texts) (units', texts') =
    (λ name. units' name ∙ units name, λ path. texts' path ∙ texts path)

module _ (m : Machine) (env : Env) where
  start_log_tail-Same : (t t' : List Action) → start_log_tail env t ≡ (ok tt, t') → Same t t'
  unfolding start_log_tail last_request text_of
  start_log_tail-Same t t' h = elim (Option-cases (env (codes "FORWARD_SERVICE_LOGS"))) [
    | inl e ↦ Same-end t _ t' (rw (e, start_log_tail) at h) (λ name. refl, λ path. refl)
    | inr (value, e) ↦ elim (Bool-cases (text_eq value (codes "0"))) [
      | inl off ↦ Same-end t _ t' (rw (e, off, start_log_tail) at h) (λ name. refl, λ path. refl)
      | inr on ↦ Same-end t _ t' (rw (e, on, start_log_tail) at h) (λ name. refl, λ path. refl)
    ]
  ]

  hooks : List Text
  hooks = codes "run-parts" ∷ init_hook_dir ∷ []

  any_hook : List Text
  any_hook = codes "run-parts" ∷ codes "--regex" ∷ codes ".*" ∷ init_hook_dir ∷ []

  any_hook_Same : (t t' : List Action) → run_any_hook m (called hooks ∷ t) ≡ (ok tt, t') → Same t t'
  unfolding run_any_hook any_hook last_request text_of
  any_hook_Same t t' h = elim (Bool-cases (m.status any_hook (called hooks ∷ t) == 0)) [
    | inl passed ↦ Same-end t _ t' (rw (passed, run_any_hook) at h) (λ name. refl, λ path. refl)
    | inr failed ↦ let h' = rw (failed, run_any_hook) at h in absurd (cc (h'))
  ]

  run_init_hooks-Same : (t t' : List Action) → run_init_hooks m t ≡ (ok tt, t') → Same t t'
  unfolding run_init_hooks hooks last_request text_of
  run_init_hooks-Same t t' h = elim (Bool-cases (m.is_dir init_hook_dir)) [
    | inr missing ↦ Same-end t _ t' (rw (missing, run_init_hooks) at h) (λ name. refl, λ path. refl)
    | inl there ↦ elim (Bool-cases (m.status hooks t == 0)) [
      | inl passed ↦
          Same-end t _ t' (rw (there, passed, run_init_hooks) at h) (λ name. refl, λ path. refl)
      | inr failed ↦ any_hook_Same t t' (rw (there, failed, run_init_hooks) at h)
    ]
  ]

  enabled : List Action → List Action
  enabled t =
      systemctl (is_enabled (env (codes "UOS_READYZ"))) (codes "uos-readyz.service")
      ∷ systemctl (is_enabled (env (codes "UOS_SEED_OWNER"))) (codes "uos-seed-owner.service")
      ∷ systemctl (is_enabled (env (codes "UOS_NETWORK_DIRECT")))
          (codes "uos-network-direct.socket")
      ∷ t

  -- The units of `unit_flags`, in order, and no other.
  enable_units_trace : (t : List Action) → enable_units env unit_flags t ≡ (ok tt, enabled t)
  unfolding enable_units for_each enabled
  enable_units_trace t = refl

  -- The end of the boot, behind whatever came before.
  boot_end :
      (p : Boot) (t : List Action)
      → (p
            then_do enable_units env unit_flags
            then_do run_init_hooks m
            then_do start_log_tail env
            then_do act exec_init)
          []
        ≡ (ok tt, t)
      → (u : List Action) × (p [] ≡ (ok tt, u)) × Same (enabled u) t
  unfolding act last_request text_of
  boot_end p t h =
      let units : Boot = p then_do enable_units env unit_flags in
      let hooks_run : Boot = units then_do run_init_hooks m in
      let (t1, h1, e1) = then_do-ok (hooks_run then_do start_log_tail env) (act exec_init) [] t h in
      let (t2, h2, e2) = then_do-ok hooks_run (start_log_tail env) [] t1 h1 in
      let (t3, h3, e3) = then_do-ok units (run_init_hooks m) [] t2 h2 in
      let (u, h4, e4) = then_do-ok p (enable_units env unit_flags) [] t3 h3 in
      (
        u,
        h4,
        Same-trans (enabled u) t2 t
            (Same-trans (enabled u) t3 t2
              (Same-end (enabled u) (enabled u) t3 (sym (enable_units_trace u) ∙ e4)
                (λ name. refl, λ path. refl))
              (run_init_hooks-Same t3 t2 e3))
            (Same-trans t2 t1 t (start_log_tail-Same t2 t1 e2)
              (Same-end t1 (exec_init ∷ t1) t e1 (λ name. refl, λ path. refl))),
      )

  files_of :
      (seeding ready : Bool) (v t : List Action)
      → ◌then_do◌
          (if seeding then write_seed_owner_env env else nothing_to_do)
          (if ready then write_readyz_env env else nothing_to_do)
          v
        ≡ (ok tt, t)
      → (seeding ≡ true → text_of (codes "/run/uos-seed-owner.env") t ≡ some (seed_owner_env env))
        × (ready ≡ true → text_of (codes "/run/uos-readyz.env") t ≡ some (readyz_env env))
  unfolding write_seed_owner_env nothing_to_do text_of text_eq write_readyz_env act
  files_of true true v t h = (
    λ on.
        subst (λ u. text_of (codes "/run/uos-seed-owner.env") u ≡ some (seed_owner_env env))
          (ap (λ p. p.1) h) refl,
    λ on.
        subst (λ u. text_of (codes "/run/uos-readyz.env") u ≡ some (readyz_env env))
          (ap (λ p. p.1) h) refl,
  )
  files_of true false v t h = (
    λ on.
        subst (λ u. text_of (codes "/run/uos-seed-owner.env") u ≡ some (seed_owner_env env))
          (ap (λ p. p.1) h) refl,
    λ on. cc,
  )
  files_of false true v t h = (
    λ on. cc,
    λ on.
        subst (λ u. text_of (codes "/run/uos-readyz.env") u ≡ some (readyz_env env))
          (ap (λ p. p.1) h) refl,
  )
  files_of false false v t h = (λ on. cc, λ on. cc)

  -- In a boot that ends in `exec_init`, the entrypoint's last call of `systemctl` for each unit asks
  -- to enable it if its flag is set and to disable it otherwise; and it has last written the files of
  -- the seed and of the readiness unit with the container's settings, if their flags are set. Whether
  -- `systemctl` does as it is asked, and what the hooks that run later do, is not part of it.
  pub main_requested :
      (t : List Action)
      → main m env [] ≡ (ok tt, t)
      → (last_request (codes "uos-seed-owner.service") t
          ≡ some (is_enabled (env (codes "UOS_SEED_OWNER"))))
        × (last_request (codes "uos-readyz.service") t
            ≡ some (is_enabled (env (codes "UOS_READYZ"))))
        × (last_request (codes "uos-network-direct.socket") t
            ≡ some (is_enabled (env (codes "UOS_NETWORK_DIRECT"))))
        × ((is_enabled (env (codes "UOS_SEED_OWNER")) ≡ false)
            ⊎ (text_of (codes "/run/uos-seed-owner.env") t ≡ some (seed_owner_env env)))
        × ((is_enabled (env (codes "UOS_READYZ")) ≡ false)
            ⊎ (text_of (codes "/run/uos-readyz.env") t ≡ some (readyz_env env)))
  unfolding main last_request text_of text_eq enabled write_unit_files
  main_requested t h =
      let (u, earlier, (units, texts)) =
        boot_end (prepare m env then_do write_unit_files env) t h in
      let (v, _, files) = then_do-ok (prepare m env) (write_unit_files env) [] u earlier in
      let (seed_file, readyz_file) = files_of _ _ v u files in
      (
        units (codes "uos-seed-owner.service"),
        units (codes "uos-readyz.service"),
        units (codes "uos-network-direct.socket"),
        off_or _ (λ on. texts (codes "/run/uos-seed-owner.env") ∙ seed_file on),
        off_or _ (λ on. texts (codes "/run/uos-readyz.env") ∙ readyz_file on),
      )
