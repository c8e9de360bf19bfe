-- ===== src/Boot/Settings/Readiness.antt =====
-- What the readiness unit of a UniFi OS image serves, of what the container is asked to serve.
use unifi_containers.Prelude.{
  ◌≡◌, All, ◌∙◌, refl, ap, ap₂, Option, none, some, [], ◌∷◌, ◌++◌, if◌then◌else◌,
}
use unifi_containers.Text.{Text, text_eq}
use unifi_containers.Pins.{truthy}
use unifi_containers.Settings.{Env, is_enabled}
use unifi_containers.Boot.Settings.{readyz_env, readyz_keys}
use unifi_containers.Boot.Settings.Reader.{IsKey, IsPlain, GivenPlain}
use unifi_containers.Boot.Settings.Handover.{
  Assignments, env_of, truthy-readyz_env, readyz_env-others,
}
use unifi_containers.Readyz.Configured.{configured, named, disable_var, probe_var, port_var}

-- The container without the variable that switches the endpoint off.
abbrev pub never_disabled : Env → Env
never_disabled env name = if text_eq name disable_var then none else env name

truthy-truthy : (o : Option Text) → truthy (truthy o) ≡ truthy o
unfolding truthy
truthy-truthy none = refl
truthy-truthy (some []) = refl
truthy-truthy (some (c ∷ t)) = refl

module _ (read : Text → Assignments) (read_nothing : read [] ≡ [])
    (read_line : (key value rest : Text)
      → IsKey key
      → IsPlain value
      → read (key ++ b'=' ∷ b'\'' ∷ (value ++ b'\'' ∷ b'\n' ∷ rest)) ≡ (key, value) ∷ read rest)
    {I : Type 0} (as_int : Text → Option I) (default_port : I) where
  -- In an environment that reads the file of the readiness unit, the endpoint is the one that the
  -- container asks for without READYZ_DISABLE, if neither of the unit's settings has a single quote;
  -- of the reader it is taken that it reads a line KEY='value' without another quote as that value.
  -- So READYZ_DISABLE has no effect there, where the README says that it switches the endpoint off.
  pub configured-readyz_env :
      (env : Env)
      → All (λ key. GivenPlain (env key)) readyz_keys
      → configured as_int default_port (env_of (read (readyz_env env)))
        ≡ configured as_int default_port (never_disabled env)
  unfolding configured text_eq is_enabled
  configured-readyz_env env plain =
      let unit : Env = env_of (read (readyz_env env)) in
      let (probe, (port, _)) = truthy-readyz_env read read_nothing read_line env plain in
      rw (readyz_env-others read read_nothing read_line env plain, configured)
        (ap₂ (named as_int default_port) (ap truthy probe ∙ truthy-truthy (env probe_var))
          (ap truthy port ∙ truthy-truthy (env port_var)))
