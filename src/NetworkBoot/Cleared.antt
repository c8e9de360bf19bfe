-- ===== src/NetworkBoot/Cleared.antt =====
-- What the readiness endpoint of a boot finds of the boot before it.
use unifi_containers.Prelude.{
  subst, ℕ, ◌≡◌, refl, Bool, true, false, ◌==◌, Option, none, some, List, [], ◌∷◌, if◌then◌else◌,
  All, Bool-cases, Option-cases, inl, inr,
}
use unifi_containers.Prelude.Results.{Result, ok, err, after}
use unifi_containers.Text.{Text, codes, text_eq, text_eq_refl, text_eq_sound, is_in}
use unifi_containers.Settings.{Env}
use unifi_containers.Readyz.Configured.{Endpoint, off, bad_port, unknown_probe, serving, configured}
use unifi_containers.NetworkBoot.{
  Action, handed_over, umask, endpoint, env_set, called, wrote, supervised, BootFailure, Container,
  did, BootStep, boot_state, without, clear_readiness_state, Host, run_hooks, run_each, is_hook,
  hook_path, sorted,
}
use unifi_containers.NetworkBoot.Java.{jvm_opts, java_argv}
use unifi_containers.NetworkBoot.Sequence.{
  ◌then_do◌, serve, apply_vendor_paths, cleared, vendor_init, write_system_properties, supervise,
  start, main,
}

apart : (path p : Text) → text_eq p path ≡ false → text_eq path p ≡ false
apart path p e = elim (Bool-cases (text_eq path p)) [
  | inr e' ↦ e'
  | inl e' ↦ absurd (cc (e, text_eq_refl path, text_eq_sound path p e'))
]

-- An endpoint that starts does not find the path.
abbrev pub Unseen : Text → Action → Type 0
Unseen path (endpoint on) = is_in path on ≡ false
Unseen path (handed_over argv) = Unit
Unseen path (umask mask) = Unit
Unseen path (env_set name value) = Unit
Unseen path (called argv status) = Unit
Unseen path (wrote at text) = Unit
Unseen path (supervised argv) = Unit

module _ (H : Host) where
  -- No path of `BOOT_STATE` that can be removed is among them.
  abbrev AreGone : List Text → Type 0
  AreGone on =
      (path : Text) → is_in path boot_state ≡ true → H.removable path ≡ true → is_in path on ≡ false

  -- An endpoint starts only when they are gone.
  abbrev Fresh : Action → Type 0
  Fresh (endpoint on) = AreGone on
  Fresh (handed_over argv) = Unit
  Fresh (umask mask) = Unit
  Fresh (env_set name value) = Unit
  Fresh (called argv status) = Unit
  Fresh (wrote path text) = Unit
  Fresh (supervised argv) = Unit

  Fresh-Unseen :
      (path : Text)
      → is_in path boot_state ≡ true
      → H.removable path ≡ true
      → (trace : List Action) → All Fresh trace
      → All (Unseen path) trace
  Fresh-Unseen path there removable [] fresh = tt
  Fresh-Unseen path there removable (endpoint on ∷ trace) (gone, fresh) =
      (gone path there removable, Fresh-Unseen path there removable trace fresh)
  Fresh-Unseen path there removable (handed_over argv ∷ trace) (_, fresh) =
      (tt, Fresh-Unseen path there removable trace fresh)
  Fresh-Unseen path there removable (umask mask ∷ trace) (_, fresh) =
      (tt, Fresh-Unseen path there removable trace fresh)
  Fresh-Unseen path there removable (env_set name value ∷ trace) (_, fresh) =
      (tt, Fresh-Unseen path there removable trace fresh)
  Fresh-Unseen path there removable (called argv status ∷ trace) (_, fresh) =
      (tt, Fresh-Unseen path there removable trace fresh)
  Fresh-Unseen path there removable (wrote at text ∷ trace) (_, fresh) =
      (tt, Fresh-Unseen path there removable trace fresh)
  Fresh-Unseen path there removable (supervised argv ∷ trace) (_, fresh) =
      (tt, Fresh-Unseen path there removable trace fresh)

  without_gone : (path : Text) (on : List Text) → is_in path (without path on) ≡ false
  unfolding without is_in
  without_gone path [] = refl
  without_gone path (p ∷ on) = elim (Bool-cases (text_eq p path)) [
    | inl e ↦ rw (e, without) (without_gone path on)
    | inr e ↦ rw (e, without) (rw (apart path p e, is_in) (without_gone path on))
  ]

  -- Taking another path out brings none back.
  without_absent :
      (other path : Text) (on : List Text)
      → is_in path on ≡ false
      → is_in path (without other on) ≡ false
  unfolding without is_in
  without_absent other path [] absent = refl
  without_absent other path (p ∷ on) absent = elim (Bool-cases (text_eq path p)) [
    | inl e ↦ let absent' = rw (e, is_in) at absent in absurd (cc (absent'))
    | inr e ↦
        let ih = without_absent other path on (rw (e, is_in) at absent) in
        elim (Bool-cases (text_eq p other)) [
          | inl q ↦ rw (q, without) ih
          | inr q ↦ rw (q, without) (rw (e, is_in) ih)
        ]
  ]

  if_removed :
      (b : Bool) (other path : Text) (on : List Text)
      → is_in path on ≡ false
      → is_in path (if b then without other on else on) ≡ false
  if_removed true other path on absent = without_absent other path on absent
  if_removed false other path on absent = absent

  clear_absent :
      (paths : List Text) (c : Container) (path : Text)
      → is_in path c.markers ≡ false
      → is_in path (clear_readiness_state H.removable paths c).markers ≡ false
  unfolding clear_readiness_state
  clear_absent [] c path absent = absent
  clear_absent (p ∷ paths) c path absent =
      clear_absent paths _ path (if_removed (H.removable p) p path c.markers absent)

  clear_gone :
      (paths : List Text) (c : Container) (path : Text)
      → is_in path paths ≡ true
      → H.removable path ≡ true
      → is_in path (clear_readiness_state H.removable paths c).markers ≡ false
  unfolding clear_readiness_state is_in
  clear_gone [] c path there removable = cc
  clear_gone (p ∷ paths) c path there removable = elim (Bool-cases (text_eq path p)) [
    | inl e ↦ clear_absent paths _ path (now_gone p path c.markers e removable)
    | inr e ↦ clear_gone paths _ path (rw (e, is_in) at there) removable
  ]
    where
      now_gone :
          (p path : Text) (on : List Text)
          → text_eq path p ≡ true
          → H.removable path ≡ true
          → is_in path (if H.removable p then without p on else on) ≡ false
      now_gone p path on e removable =
          subst (λ q. is_in path (if H.removable q then without q on else on) ≡ false)
            (text_eq_sound path p e) (rw removable (without_gone path on))

  clear_trace :
      (paths : List Text) (c : Container)
      → All Fresh c.trace
      → All Fresh (clear_readiness_state H.removable paths c).trace
  unfolding clear_readiness_state
  clear_trace [] c fresh = fresh
  clear_trace (p ∷ paths) c fresh = clear_trace paths _ fresh

  -- What a step leaves of the trace.
  abbrev Keeps : BootStep → Type 0
  Keeps step = (c : Container) → All Fresh c.trace → All Fresh (step c).1.trace

  after-Fresh :
      (p : Result BootFailure (Unit {0}) × Container) (g : BootStep)
      → All Fresh p.1.trace
      → Keeps g
      → All Fresh (after p (λ _ c. g c)).1.trace
  after-Fresh (ok a, c) g fresh keeps = keeps c fresh
  after-Fresh (err e, c) g fresh keeps = fresh

  then_do-Keeps : (f g : BootStep) → Keeps f → Keeps g → Keeps (f then_do g)
  then_do-Keeps f g first next c fresh = after-Fresh (f c) g (first c fresh) next

  run_each-Keeps : (names : List Text) → Keeps (run_each H names)
  unfolding run_each did
  run_each-Keeps [] c fresh = fresh
  run_each-Keeps (name ∷ names) c fresh =
      let status : ℕ = H.status (hook_path name ∷ []) c.trace in
      elim (Bool-cases (is_hook H name)) [
        | inr e ↦ rw (e, run_each) (run_each-Keeps names c fresh)
        | inl e ↦ elim (Bool-cases (status == 0)) [
          | inl z ↦
              rw (e, z, run_each)
                (run_each-Keeps names (did (called (hook_path name ∷ []) status) c) (tt, fresh))
          | inr z ↦ rw (e, z, run_each) (tt, fresh)
        ]
      ]

  run_hooks-Keeps : Keeps (run_hooks H)
  unfolding run_hooks
  run_hooks-Keeps c fresh = elim (Option-cases H.hook_names) [
    | inl e ↦ rw (e, run_hooks) fresh
    | inr (names, e) ↦ rw (e, run_hooks) (run_each-Keeps (sorted names) c fresh)
  ]

  serve-Fresh :
      {I : Type 0} (e : Endpoint I) (c : Container)
      → AreGone c.markers
      → All Fresh c.trace
      → All Fresh (serve e c).1.trace
  unfolding serve did
  serve-Fresh off c gone fresh = fresh
  serve-Fresh bad_port c gone fresh = fresh
  serve-Fresh (unknown_probe name) c gone fresh = fresh
  serve-Fresh (serving name port) c gone fresh = (gone, fresh)

  module _ (merge : Text → Text) (split : Text → Option (List Text)) where
    vendor_paths-Keeps : Keeps apply_vendor_paths
    unfolding apply_vendor_paths did
    vendor_paths-Keeps c fresh = (tt, (tt, (tt, fresh)))

    vendor_init-Keeps : Keeps (vendor_init H merge split)
    unfolding vendor_init did
    vendor_init-Keeps c fresh = elim (Bool-cases H.has_helper) [
      | inl e ↦ rw e (tt, fresh)
      | inr e ↦ rw e fresh
    ]

    properties-Keeps : Keeps (write_system_properties H merge split)
    unfolding write_system_properties did
    properties-Keeps c fresh =
        let existing : Text = elim H.properties [ none ↦ [] | some text ↦ text ] in
        elim (Bool-cases (text_eq (merge existing) existing)) [
          | inl e ↦ rw e fresh
          | inr e ↦ rw e (tt, fresh)
        ]

    supervise-Keeps : (env : Env) → Keeps (supervise H merge split env)
    unfolding supervise did
    supervise-Keeps env c fresh =
        elim (Option-cases (java_argv split (jvm_opts split H.system_env env))) [
          | inl e ↦ rw (e, supervise) fresh
          | inr (argv, e) ↦ rw (e, supervise) (tt, fresh)
        ]

    module _ {I : Type 0} (as_int : Text → Option I) (default_port : I) where
      start-Fresh : (env : Env) → Keeps (start H merge split as_int default_port env)
      unfolding start cleared did
      start-Fresh env =
          let s : BootStep =
            cleared H merge split then_do serve (configured as_int default_port env) in
          let first : Keeps s = λ c fresh.
            serve-Fresh (configured as_int default_port env) _ (clear_gone boot_state _)
              (clear_trace boot_state _ (tt, fresh)) in
          then_do-Keeps
            (s
              then_do apply_vendor_paths
              then_do vendor_init H merge split
              then_do write_system_properties H merge split
              then_do run_hooks H)
            (supervise H merge split env)
            (then_do-Keeps
              (s
                then_do apply_vendor_paths
                then_do vendor_init H merge split
                then_do write_system_properties H merge split)
              (run_hooks H)
              (then_do-Keeps (s then_do apply_vendor_paths then_do vendor_init H merge split)
                (write_system_properties H merge split)
                (then_do-Keeps (s then_do apply_vendor_paths) (vendor_init H merge split)
                  (then_do-Keeps s apply_vendor_paths first vendor_paths-Keeps) vendor_init-Keeps)
                properties-Keeps)
              run_hooks-Keeps)
            (supervise-Keeps env)

      main-Fresh :
          (argv : List Text) (env : Env) (markers : List Text)
          → All Fresh
              (main H merge split as_int default_port argv env
                (record { markers = markers; trace = [] })).1.trace
      unfolding main did
      main-Fresh [] env markers = start-Fresh env _ tt
      main-Fresh (command ∷ rest) env markers =
          elim (Bool-cases (text_eq command (codes "unifi"))) [
            | inl e ↦ rw (e, main) (start-Fresh env _ tt)
            | inr e ↦ rw (e, main) (tt, tt)
          ]

      -- If a path of `BOOT_STATE` can be removed, no endpoint that a boot starts finds it, whatever
      -- the container is asked to run, whatever the last boot has left and however this one ends.
      pub main-Unseen :
          (argv : List Text) (env : Env) (markers : List Text) (path : Text)
          → is_in path boot_state ≡ true
          → H.removable path ≡ true
          → All
              (Unseen path)
              (main H merge split as_int default_port argv env
                (record { markers = markers; trace = [] })).1.trace
      main-Unseen argv env markers path there removable =
          Fresh-Unseen path there removable _ (main-Fresh argv env markers)
