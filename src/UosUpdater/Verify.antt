-- ===== src/UosUpdater/Verify.antt =====
-- `verify` of updaters/uos.py: the check of the pins.
use unifi_containers.Prelude.{
  ℕ, Bool, true, false, not, Option, none, some, List, [], ◌∷◌, if◌then◌else◌, ◌>>=◌,
}
use unifi_containers.Text.{Text}
use unifi_containers.Text.Scan.{digits1, char, dotted}
use unifi_containers.Updater.{is_sha256}
use unifi_containers.Pins.{truthy}
use unifi_containers.UosUpdater.{
  uos_version, url_amd64, sha256_amd64, url_arm64, sha256_arm64, app_pin,
}
use unifi_containers.UosUpdater.Bump.{pin_or_empty}

unfoldable pub is_nothing : Text → Option (Unit {0})
is_nothing [] = some tt
is_nothing (c ∷ s) = none

-- `\d+\.\d+\.\d+-\d+-\d+` up to the end of the text.
unfoldable pub full_version : Text → Option (Unit {0})
unfolding is_nothing
full_version app = do
  (_, r) ← dotted app
  s ← char b'-' r
  (_, r') ← digits1 s
  s' ← char b'-' r'
  (_, rest) ← digits1 s'
  is_nothing rest

unfoldable pub is_full_version : Text → Bool
unfolding full_version
is_full_version app = elim (full_version app) [ none ↦ false | some _ ↦ true ]

abbrev pub sha_keys : List Text
sha_keys = sha256_amd64 ∷ sha256_arm64 ∷ []

abbrev pub url_keys : List Text
url_keys = url_amd64 ∷ url_arm64 ∷ []

abbrev pub needed_keys : List Text
needed_keys = uos_version ∷ sha256_amd64 ∷ sha256_arm64 ∷ url_amd64 ∷ url_arm64 ∷ []

-- `for key in keys: if not test(pins[key]): return 1`
unfoldable pub all_pass : (Text → Bool) → List Text → Bool
all_pass test [] = true
all_pass test (key ∷ keys) = let rest = all_pass test keys in if test key then rest else false

module _ (pins : Text → Option Text) (url_exists : Text → Bool) where
  -- `pins.get(key)` as a condition.
  unfoldable pub is_present : Text → Bool
  is_present key = elim (truthy (pins key)) [ none ↦ false | some _ ↦ true ]

  unfoldable pub has_sha256 : Text → Bool
  has_sha256 key = is_sha256 (pin_or_empty (pins key))

  unfoldable pub is_reachable : Text → Bool
  is_reachable key = url_exists (pin_or_empty (pins key))

  -- The exit status.
  unfoldable pub verify : ℕ
  unfolding all_pass is_present has_sha256 is_reachable
  verify =
      if not (all_pass is_present needed_keys)
      then 1
      else if not (all_pass has_sha256 sha_keys)
      then 1
      else if not (all_pass is_reachable url_keys)
      then 1
      else if not (is_full_version (pin_or_empty (pins app_pin)))
      then 1
      else 0
