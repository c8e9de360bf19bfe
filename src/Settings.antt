-- ===== src/Settings.antt =====
-- env.py: the seed settings, their names and defaults. An environment is a function from names.
use unifi_containers.Prelude.{Bool, false, ◌||◌, Option, none, some}
use unifi_containers.Text.{Text, codes, text_eq}
use unifi_containers.Pins.{truthy}

abbrev pub Env : Type 0
Env = Text → Option Text

-- The keys of `SEED_DEFAULTS`.
pub data Setting : Type 0 where
  admin_user admin_pass country timezone console_name seed_api_key api_key_name api_key_file :
      Setting

unfoldable pub key_of : Setting → Text
key_of admin_user = codes "UOS_ADMIN_USER"
key_of admin_pass = codes "UOS_ADMIN_PASS"
key_of country = codes "UOS_COUNTRY"
key_of timezone = codes "UOS_TIMEZONE"
key_of console_name = codes "UOS_CONSOLE_NAME"
key_of seed_api_key = codes "UOS_SEED_API_KEY"
key_of api_key_name = codes "UOS_API_KEY_NAME"
key_of api_key_file = codes "UOS_API_KEY_FILE"

unfoldable pub default_of : Setting → Text
default_of admin_user = codes "admin"
default_of admin_pass = codes "admin"
default_of country = codes "840"
default_of timezone = codes "UTC"
default_of console_name = codes "unifi-os-sim"
default_of seed_api_key = codes "0"
default_of api_key_name = codes "unifi-containers-seeded"
default_of api_key_file = codes "/unifi/api-key"

-- `value in ("true", "1")`, where the value may be None.
unfoldable pub is_enabled : Option Text → Bool
is_enabled none = false
is_enabled (some value) = text_eq value (codes "true") || text_eq value (codes "1")

-- `env.get(key) or SEED_DEFAULTS[key]`
unfoldable pub setting : Setting → Env → Text
setting s env = elim (truthy (env (key_of s))) [ none ↦ default_of s | some value ↦ value ]
