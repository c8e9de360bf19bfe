-- ===== src/Sysprops/Demo.antt =====
-- `apply` of entrypoint/demo.py, which adds the keys of the simulation to system.properties. Errors of
-- the disk are left out, except that there is no file to read.
use unifi_containers.Prelude.{
  ◌≡◌, refl, sym, subst, ap, Bool, true, false, Option, none, some, [], Has, inl, inr,
}
use unifi_containers.Text.{Text}
use unifi_containers.Settings.{Env}
use unifi_containers.Probes.{demo_settings}
use unifi_containers.Sysprops.{Library, IsLibrary, has, merge}
use unifi_containers.Sysprops.Merged.{first_value, has-first_value, merge_settled}

unfoldable pub text_or_empty : Option Text → Text
text_or_empty none = []
text_or_empty (some text) = text

module _ (L : Library) where
  -- Whether `apply` ends without an exception, and the file. It is emptied before the merge, whose
  -- exception leaves it so.
  unfoldable pub apply : Env → Option Text → Bool × Text
  unfolding text_or_empty
  apply env file = elim (merge L (text_or_empty file) (demo_settings env) true) [
    | none ↦ (false, [])
    | some text ↦ (true, text)
  ]

-- Each environment has the settings of the same keys.
demo_settings_covered :
    (env later : Env) (k v : Text)
    → Has (k, v) (demo_settings later)
    → has (first_value k (demo_settings env)) ≡ true
unfolding demo_settings
demo_settings_covered env later k v m = elim m [
  | inl e ↦ from e (inl refl)
  | inr m1 ↦ elim m1 [
    | inl e ↦ from e (inr (inl refl))
    | inr m2 ↦ elim m2 [
      | inl e ↦ from e (inr (inr (inl refl)))
      | inr m3 ↦ elim m3 [ inl e ↦ from e (inr (inr (inr (inl refl)))) | inr m4 ↦ absurd m4 ]
    ]
  ]
]
  where
    from :
        {key w w' : Text}
        → ◌≡◌ {A = Text × Text} (k, v) (key, w)
        → Has (key, w') (demo_settings env)
        → has (first_value k (demo_settings env)) ≡ true
    from {key} {w} {w'} e there =
        let same : key ≡ k = ap (λ p. p.0) (sym e) in
        has-first_value k w' (demo_settings env)
          (subst (λ x. Has (x, w') (demo_settings env)) same there)

module _ (L : Library) (laws : IsLibrary L) where
  apply_merged :
      (env : Env) (file : Option Text) (new : Text) (r : Option Text)
      → merge L (text_or_empty file) (demo_settings env) true ≡ r
      → apply L env file ≡ (true, new)
      → r ≡ some new
  unfolding apply
  apply_merged env file new none e h = absurd (cc (rw (e, apply) at h))
  apply_merged env file new (some text) e h = ap (λ p. some p.1) (rw (e, apply) at h)

  -- What the seed of the simulation has written it leaves as it is on every later boot, whatever the
  -- counts of devices that the environment asks for then.
  pub apply_settled :
      (env later : Env) (file : Option Text) (new : Text)
      → apply L env file ≡ (true, new)
      → apply L later (some new) ≡ (true, new)
  unfolding apply text_or_empty
  apply_settled env later file new h =
      rw
        (
          merge_settled L laws (text_or_empty file) new (demo_settings env) (demo_settings later)
              (demo_settings_covered env later) (apply_merged env file new _ refl h),
          apply,
        )
        refl
