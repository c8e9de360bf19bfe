-- ===== src/Boot/Settings.antt =====
-- The EnvironmentFiles that entrypoint/uos.py writes for the units, and the settings that
-- seed/uos_owner.py reads back out of them.
pub mod Reader
pub mod Handover
pub mod Readiness
pub mod Lines
use unifi_containers.Prelude.{
  ℕ, ◌==◌, Bool, true, false, Option, none, some, List, [], ◌∷◌, ◌++◌, ◌⊎◌, inl, inr, map,
  if◌then◌else◌,
}
use unifi_containers.Text.{Text, codes}
use unifi_containers.Pins.{truthy}
use unifi_containers.Settings.{
  Env, Setting, setting, key_of, is_enabled, admin_user, admin_pass, country, timezone,
  console_name, seed_api_key, api_key_name, api_key_file,
}

-- `value.replace("'", "'\\''")`
unfoldable pub quotes_reopened : Text → Text
quotes_reopened [] = []
quotes_reopened (c ∷ s) =
    let rest = quotes_reopened s in
    if c == b'\'' then b'\'' ∷ b'\\' ∷ b'\'' ∷ b'\'' ∷ rest else c ∷ rest

-- `_quote`
unfoldable pub quote : Text → Text
unfolding quotes_reopened
quote value = b'\'' ∷ (quotes_reopened value ++ b'\'' ∷ [])

-- One line, `KEY=value`.
unfoldable pub assignment : Text → Text → Text → Text
unfolding quote
assignment key value rest = key ++ b'=' ∷ (quote value ++ b'\n' ∷ rest)

-- The keys of `SEED_DEFAULTS`, in order.
abbrev pub seed_defaults : List Setting
seed_defaults =
    admin_user ∷ admin_pass ∷ country ∷ timezone ∷ console_name ∷ seed_api_key ∷ api_key_name
    ∷ api_key_file ∷ []

unfoldable pub settings_text : List Setting → Env → Text
unfolding assignment
settings_text [] env = []
settings_text (s ∷ ss) env = assignment (key_of s) (setting s env) (settings_text ss env)

unfoldable pub seed_owner_env : Env → Text
unfolding settings_text
seed_owner_env = settings_text seed_defaults

-- READYZ_KEYS
abbrev pub readyz_keys : List Text
readyz_keys = codes "READYZ_PROBE" ∷ codes "READYZ_PORT" ∷ []

-- A key without a value is left out.
unfoldable pub keys_text : List Text → Env → Text
unfolding assignment
keys_text [] env = []
keys_text (key ∷ keys) env =
    let rest = keys_text keys env in
    elim (truthy (env key)) [ none ↦ rest | some value ↦ assignment key value rest ]

unfoldable pub readyz_env : Env → Text
unfolding keys_text
readyz_env = keys_text readyz_keys

-- `Config` of the seed. `I` is Python's `int`, and `as_int` what `int(value)` makes of a text.
pub record Config (I : Type 0) : Type 0 where
  pub username : Text
  pub password : Text
  pub country : I ⊎ Text
  pub timezone : Text
  pub console_name : Text
  pub seed_api_key : Bool
  pub key_file : Text
  pub key_name : Text

module _ {I : Type 0} (as_int : Text → Option I) where
  -- `_country`
  unfoldable pub as_country : Text → I ⊎ Text
  as_country value = elim (as_int value) [ none ↦ inr value | some n ↦ inl n ]

  unfoldable pub config_from_env : Env → Config I
  unfolding as_country
  config_from_env env = record {
    username = setting admin_user env;
    password = setting admin_pass env;
    country = as_country (setting Setting.country env);
    timezone = setting Setting.timezone env;
    console_name = setting Setting.console_name env;
    seed_api_key = is_enabled (env (key_of Setting.seed_api_key));
    key_file = setting api_key_file env;
    key_name = setting api_key_name env;
  }
