-- ===== src/Boot/Settings/Handover.antt =====
-- What a unit of entrypoint/uos.py reads out of its EnvironmentFile.
use unifi_containers.Prelude.{
  ◌≡◌, refl, ap, ◌∙◌, Option, none, some, List, [], ◌∷◌, ◌++◌, append_assoc, subst, if◌then◌else◌,
  arith, All, Option-cases, inl, inr,
}
use unifi_containers.Text.{Text, codes, text_eq}
use unifi_containers.Pins.{truthy}
use unifi_containers.Settings.{
  Env, Setting, setting, key_of, default_of, is_enabled, admin_user, admin_pass, country, timezone,
  console_name, seed_api_key, api_key_name, api_key_file,
}
use unifi_containers.Boot.Settings.{
  assignment, seed_defaults, settings_text, seed_owner_env, readyz_keys, keys_text, readyz_env,
  config_from_env,
}
use unifi_containers.Boot.Settings.Reader.{IsKey, IsPlain, GivenPlain, quote-IsPlain}

abbrev pub Assignments : Type 0
Assignments = List (Text × Text)

-- The environment of the unit: of two assignments to a name the later one holds.
unfoldable pub env_of : Assignments → Env
env_of [] name = none
env_of ((key, value) ∷ rest) name = elim (env_of rest name) [
  | some later ↦ some later
  | none ↦ if text_eq key name then some value else none
]

pairs : List Setting → Env → Assignments
pairs [] env = []
pairs (s ∷ ss) env = (key_of s, setting s env) ∷ pairs ss env

given : List Text → Env → Assignments
given [] env = []
given (key ∷ keys) env =
    let rest = given keys env in
    elim (truthy (env key)) [ none ↦ rest | some value ↦ (key, value) ∷ rest ]

key_of-IsKey : (s : Setting) → IsKey (key_of s)
unfolding key_of
key_of-IsKey admin_user = ground arith
key_of-IsKey s = ground arith

chosen : Setting → Option Text → Text
chosen s o = elim (truthy o) [ none ↦ default_of s | some value ↦ value ]

chosen_found :
    (s : Setting) (o : Option Text) (v : Text)
    → o ≡ some v
    → truthy (some v) ≡ some v
    → chosen s o ≡ v
unfolding chosen
chosen_found s o v found full = rw (found, chosen, full) refl

default-truthy : (s : Setting) → truthy (some (default_of s)) ≡ some (default_of s)
unfolding truthy default_of
default-truthy admin_user = refl
default-truthy s = refl

chosen-truthy : (s : Setting) (o : Option Text) → truthy (some (chosen s o)) ≡ some (chosen s o)
unfolding chosen truthy
chosen-truthy s none = default-truthy s
chosen-truthy s (some []) = default-truthy s
chosen-truthy s (some (c ∷ t)) = refl

default-IsPlain : (s : Setting) → IsPlain (default_of s)
unfolding default_of
default-IsPlain admin_user = omega arith
default-IsPlain s = omega arith

chosen-IsPlain : (s : Setting) (o : Option Text) → GivenPlain o → IsPlain (chosen s o)
unfolding chosen truthy
chosen-IsPlain s none plain = default-IsPlain s
chosen-IsPlain s (some []) plain = default-IsPlain s
chosen-IsPlain s (some (c ∷ t)) plain = plain

truthy-IsPlain :
    (o : Option Text) (value : Text) → GivenPlain o → truthy o ≡ some value → IsPlain value
unfolding truthy
truthy-IsPlain none value plain h = absurd (cc h)
truthy-IsPlain (some []) value plain h = absurd (cc h)
truthy-IsPlain (some (c ∷ t)) value plain h =
    let same : c ∷ t ≡ value = cc h in subst IsPlain same plain

-- A setting always has a text.
setting-truthy : (s : Setting) (env : Env) → truthy (some (setting s env)) ≡ some (setting s env)
unfolding setting chosen
setting-truthy s env = chosen-truthy s (env (key_of s))

pairs_found :
    (s : Setting) (env : Env) → env_of (pairs seed_defaults env) (key_of s) ≡ some (setting s env)
unfolding pairs env_of key_of text_eq
pairs_found admin_user env = refl
pairs_found s env = refl

same_setting :
    (s : Setting) (env : Env) → setting s (env_of (pairs seed_defaults env)) ≡ setting s env
unfolding setting chosen
same_setting s env = chosen_found s _ _ (pairs_found s env) (setting-truthy s env)

flag_of_chosen : (o : Option Text) → is_enabled (some (chosen seed_api_key o)) ≡ is_enabled o
unfolding is_enabled chosen truthy default_of text_eq
flag_of_chosen none = refl
flag_of_chosen (some []) = refl
flag_of_chosen (some (c ∷ t)) = refl

same_flag :
    (env : Env)
    → is_enabled (env_of (pairs seed_defaults env) (key_of seed_api_key))
      ≡ is_enabled (env (key_of seed_api_key))
unfolding setting chosen
same_flag env =
    ap is_enabled (pairs_found seed_api_key env) ∙ flag_of_chosen (env (key_of seed_api_key))

given_two : Option Text → Option Text → Assignments
given_two probe port =
    let rest : Assignments = elim port [
      | none ↦ []
      | some value ↦ (codes "READYZ_PORT", value) ∷ []
    ] in
    elim probe [ none ↦ rest | some value ↦ (codes "READYZ_PROBE", value) ∷ rest ]

given_two_found :
    (probe port : Option Text)
    → (env_of (given_two probe port) (codes "READYZ_PROBE") ≡ probe)
      × (env_of (given_two probe port) (codes "READYZ_PORT") ≡ port)
unfolding given_two env_of text_eq
given_two_found none none = (refl, refl)
given_two_found none (some b) = (refl, refl)
given_two_found (some a) none = (refl, refl)
given_two_found (some a) (some b) = (refl, refl)

given_two_others :
    (probe port : Option Text) → env_of (given_two probe port) (codes "READYZ_DISABLE") ≡ none
unfolding given_two env_of text_eq
given_two_others none none = refl
given_two_others none (some b) = refl
given_two_others (some a) none = refl
given_two_others (some a) (some b) = refl

given_found :
    (env : Env) → All (λ key. env_of (given readyz_keys env) key ≡ truthy (env key)) readyz_keys
unfolding given given_two
given_found env =
    let (probe, port) =
      given_two_found (truthy (env (codes "READYZ_PROBE"))) (truthy (env (codes "READYZ_PORT"))) in
    (probe, (port, tt))

readyz_keys-IsKey : All IsKey readyz_keys
readyz_keys-IsKey = ground arith

module _ (read : Text → Assignments) (read_nothing : read [] ≡ [])
    (read_line : (key value rest : Text)
      → IsKey key
      → IsPlain value
      → read (key ++ b'=' ∷ b'\'' ∷ (value ++ b'\'' ∷ b'\n' ∷ rest))
        ≡ (key, value) ∷ read rest) where
  read_assignment :
      (key value rest : Text)
      → IsKey key
      → IsPlain value
      → read (assignment key value rest) ≡ (key, value) ∷ read rest
  unfolding assignment
  read_assignment key value rest is_key plain =
      ap (λ (q : Text). read (key ++ b'=' ∷ (q ++ b'\n' ∷ rest))) (quote-IsPlain value plain)
      ∙ ap (λ (t : Text). read (key ++ b'=' ∷ b'\'' ∷ t))
          (append_assoc value (b'\'' ∷ []) (b'\n' ∷ rest))
      ∙ read_line key value rest is_key plain

  read_settings :
      (ss : List Setting) (env : Env)
      → ((s : Setting) → GivenPlain (env (key_of s)))
      → read (settings_text ss env) ≡ pairs ss env
  unfolding settings_text pairs setting chosen
  read_settings [] env plain = read_nothing
  read_settings (s ∷ ss) env plain =
      read_assignment (key_of s) (setting s env) (settings_text ss env) (key_of-IsKey s)
        (chosen-IsPlain s (env (key_of s)) (plain s))
      ∙ ap (λ r. (key_of s, setting s env) ∷ r) (read_settings ss env plain)

  -- If no setting of the container has a single quote, the seed finds the configuration of the
  -- container's own in an environment that reads the file; of the reader it is taken that it reads a
  -- line KEY='value' as that value, where the value has no single quote.
  pub config_from_env-seed_owner_env :
      {I : Type 0} (as_int : Text → Option I) (env : Env)
      → ((s : Setting) → GivenPlain (env (key_of s)))
      → config_from_env as_int (env_of (read (seed_owner_env env))) ≡ config_from_env as_int env
  unfolding config_from_env seed_owner_env
  config_from_env-seed_owner_env as_int env plain = rw (read_settings seed_defaults env plain) (
      rw
        (
          same_setting admin_user env,
          same_setting admin_pass env,
          same_setting country env,
          same_setting timezone env,
          same_setting console_name env,
          same_flag env,
          same_setting api_key_file env,
          same_setting api_key_name env,
        )
        refl)

  read_keys :
      (keys : List Text) (env : Env)
      → All IsKey keys
      → All (λ key. GivenPlain (env key)) keys
      → read (keys_text keys env) ≡ given keys env
  unfolding keys_text given
  read_keys [] env all plain = read_nothing
  read_keys (key ∷ keys) env (first, all) (plain, others) = elim (Option-cases (truthy (env key))) [
    | inl e ↦ rw (e, given) (rw (e, keys_text) (read_keys keys env all others))
    | inr (value, e) ↦
        rw (e, keys_text)
          (rw (e, given)
            (read_assignment key value (keys_text keys env) first
                (truthy-IsPlain (env key) value plain e)
              ∙ ap (λ r. (key, value) ∷ r) (read_keys keys env all others)))
  ]

  -- In an environment that reads the file, and where neither setting has a single quote, the
  -- readiness endpoint finds its two settings as the
  -- container has them, a setting that is absent or empty as absent.
  pub truthy-readyz_env :
      (env : Env)
      → All (λ key. GivenPlain (env key)) readyz_keys
      → All (λ key. env_of (read (readyz_env env)) key ≡ truthy (env key)) readyz_keys
  unfolding readyz_env
  truthy-readyz_env env plain =
      rw (read_keys readyz_keys env readyz_keys-IsKey plain) (given_found env)

  -- The file does not have the variable that switches the endpoint off.
  pub readyz_env-others :
      (env : Env)
      → All (λ key. GivenPlain (env key)) readyz_keys
      → env_of (read (readyz_env env)) (codes "READYZ_DISABLE") ≡ none
  unfolding readyz_env given given_two
  readyz_env-others env plain =
      rw (read_keys readyz_keys env readyz_keys-IsKey plain) (
        given_two_others (truthy (env (codes "READYZ_PROBE"))) (truthy (env (codes "READYZ_PORT"))))
