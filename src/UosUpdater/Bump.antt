-- ===== src/UosUpdater/Bump.antt =====
-- `bump` of updaters/uos.py.
use unifi_containers.Prelude.{
  Bool, false, ◌&&◌, not, Option, none, some, List, [], ◌∷◌, if◌then◌else◌,
}
use unifi_containers.Prelude.Results.{Result, ok, err, ◌>>=◌}
use unifi_containers.Text.{Text, codes, text_eq}
use unifi_containers.Packaging.{Versions}
use unifi_containers.UosUpdater.{
  UosError, not_pinned, bad_version, Entry, UosRelease, parse_release, parse_app_version,
  check_versions_match, sub_pin, uos_version, app_pin, rewrite_pins, rewrite_readme, releases_url,
  before_dash,
}

-- unifi-os/pins.env and the README.
pub record Files : Type 0 where
  pub pins : Text
  pub readme : Text

-- What the three requests of `bump` answer; `api_url` is the same for both platforms.
pub record Feeds : Type 0 where
  pub amd64 : List Entry
  pub arm64 : List Entry
  pub app : List Entry

-- The optional value, or the exception.
unfoldable pub or_raise : {A : Type 0} → UosError → Option A → Result UosError A
or_raise e none = err e
or_raise e (some a) = ok a

-- `pins.get(key, "")`
unfoldable pub pin_or_empty : Option Text → Text
pin_or_empty none = []
pin_or_empty (some value) = value

module _ (V : Versions) (dotenv : Text → Text → Option Text) where
  -- `Version(latest) >= Version(current)` on what stands before the first dash.
  unfoldable pub not_behind : Text → Text → Result UosError Bool
  unfolding before_dash or_raise
  not_behind current latest = do
    a ← or_raise bad_version (V.read (before_dash latest))
    b ← or_raise bad_version (V.read (before_dash current))
    ok (not (V.lt a b))

  unfoldable pub app_version_moved : Text → Text → Result UosError Bool
  unfolding not_behind
  app_version_moved [] latest = ok (not (text_eq latest []))
  app_version_moved (c ∷ current) latest =
      if text_eq latest (c ∷ current) then ok false else not_behind (c ∷ current) latest

  -- `Version(amd64.version) > Version(current)`
  unfoldable pub uos_version_moved : Text → Text → Result UosError Bool
  unfolding or_raise
  uos_version_moved current latest = do
    a ← or_raise bad_version (V.read latest)
    b ← or_raise bad_version (V.read current)
    ok (V.lt b a)

  -- What `bump` finds out before it writes: the two releases, the version of the application, and
  -- which of the two pins are behind.
  pub record Found : Type 0 where
    pub amd64 : UosRelease
    pub arm64 : UosRelease
    pub app : Text
    pub uos_moved : Bool
    pub app_moved : Bool

  -- Behind the version of the application: which pins are behind.
  unfoldable pub found_moved : Files → Text → UosRelease → UosRelease → Text → Result UosError Found
  unfolding uos_version_moved app_version_moved
  found_moved files current amd64 arm64 app = do
    uos_moved ← uos_version_moved current amd64.version
    app_moved ← app_version_moved (pin_or_empty (dotenv files.pins app_pin)) app
    ok (record {
      amd64 = amd64;
      arm64 = arm64;
      app = app;
      uos_moved = uos_moved;
      app_moved = app_moved;
    })

  -- Behind the two releases.
  unfoldable pub found_app : Feeds → Files → Text → UosRelease → UosRelease → Result UosError Found
  unfolding found_moved
  found_app feeds files current amd64 arm64 = do
    _ ← check_versions_match amd64 arm64
    app ← parse_app_version feeds.app
    found_moved files current amd64 arm64 app

  unfoldable pub found_out : Feeds → Files → Result UosError Found
  unfolding or_raise found_app
  found_out feeds files = do
    current ← or_raise not_pinned (dotenv files.pins uos_version)
    amd64 ← parse_release feeds.amd64 (codes "linux-x64")
    arm64 ← parse_release feeds.arm64 (codes "linux-arm64")
    found_app feeds files current amd64 arm64

  -- The new text of the pins.
  unfoldable pub pins_text : Found → Text → Result UosError Text
  pins_text f text = do
    text' ← (if f.uos_moved then rewrite_pins text f.amd64.version f.amd64 f.arm64 else ok text)
    sub_pin app_pin f.app text'

  -- The README follows the pins, if the release has moved.
  unfoldable pub write_readme : Found → Files → Result UosError (Unit {0}) × Files
  write_readme f files =
      if f.uos_moved
      then (elim (rewrite_readme files.readme f.amd64.version releases_url) [
        | err e ↦ (err e, files)
        | ok readme ↦ (ok tt, record { pins = files.pins; readme = readme })
      ])
      else (ok tt, files)

  unfoldable pub write_found : Found → Files → Result UosError (Unit {0}) × Files
  unfolding pins_text write_readme
  write_found f files = elim (pins_text f files.pins) [
    | err e ↦ (err e, files)
    | ok pins ↦ write_readme f (record { pins = pins; readme = files.readme })
  ]

  -- `return amd64.version if uos_moved else app`
  unfoldable pub changed_version : Found → Text
  changed_version f = if f.uos_moved then f.amd64.version else f.app

  unfoldable pub answered :
      Found → Result UosError (Unit {0}) × Files → Result UosError (Option Text) × Files
  unfolding changed_version
  answered f (err e, files) = (err e, files)
  answered f (ok _, files) = (ok (some (changed_version f)), files)

  unfoldable pub bump_found : Bool → Found → Files → Result UosError (Option Text) × Files
  unfolding answered
  bump_found write f files =
      if not f.uos_moved && not f.app_moved
      then (ok none, files)
      else answered f (if write then write_found f files else (ok tt, files))

  unfoldable pub bump : Bool → Feeds → Files → Result UosError (Option Text) × Files
  unfolding found_out bump_found
  bump write feeds files = elim (found_out feeds files) [
    | err e ↦ (err e, files)
    | ok f ↦ bump_found write f files
  ]
