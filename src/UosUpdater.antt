-- ===== src/UosUpdater.antt =====
-- updaters/uos.py: the pinned release of UniFi OS Server and of its bundled application.
-- A firmware record has the decoded fields that the program reads; the downloads, `dotenv_values`
-- and `packaging.Version` are parameters. The replacement of `subn` is taken as it stands, which it
-- is for texts without a backslash.
pub mod Lines
pub mod Bump
pub mod Verify
pub mod Written
pub mod Tests
use unifi_containers.Text.Row.{rewrite_row}
use unifi_containers.Prelude.{
  ℕ, Bool, true, false, ◌||◌, ◌&&◌, not, ◌==◌, leb, length, Option, none, some, List, [], ◌∷◌, ◌++◌,
  if◌then◌else◌,
}
use unifi_containers.Prelude.Results.{Result, ok, err, ◌>>=◌}
use unifi_containers.Text.{Text, codes, text_eq, strip}
use unifi_containers.Text.Lines.{lines, unlines, all_solid}
use unifi_containers.Text.Scan.{digits1, char, at_end}
use unifi_containers.Text.Words.{is_space}
use unifi_containers.Packaging.{Versions}
use unifi_containers.Updater.{is_field, is_sha256}
use unifi_containers.Pins.{truthy}

pub data UosError : Type 0 where
  -- The firmware API lists no such build; the two platforms disagree.
  no_build : Text → UosError
  mismatch app_mismatch : Text → Text → UosError
  -- KeyError for UOS_VERSION, and InvalidVersion.
  not_pinned bad_version : UosError
  no_pin : Text → UosError
  no_row : UosError

pub record Entry : Type 0 where
  pub platform : Option Text
  pub channel : Option Text
  pub version : Text
  pub href : Text
  pub checksum : Text

pub record UosRelease : Type 0 where
  pub version : Text
  pub url : Text
  pub sha256 : Text

-- `text.lstrip("v")`
unfoldable pub lstrip_v : Text → Text
lstrip_v [] = []
lstrip_v (c ∷ s) = let rest = lstrip_v s in if c == b'v' then rest else c ∷ s

-- The first entry of the platform on the channel `release`.
unfoldable pub matched : Text → List Entry → Option Entry
matched platform [] = none
matched platform (e ∷ es) =
    let rest = matched platform es in
    if is_field e.platform platform && is_field e.channel (codes "release") then some e else rest

unfoldable pub parse_release : List Entry → Text → Result UosError UosRelease
unfolding matched
parse_release firmware platform = elim (matched platform firmware) [
  | none ↦ err (no_build platform)
  | some e ↦ ok (record { version = lstrip_v e.version; url = e.href; sha256 = e.checksum })
]

-- The version of the bundled application for one of `APP_PLATFORMS`.
unfoldable pub app_version_on : List Entry → Text → Result UosError Text
unfolding matched
app_version_on firmware platform = elim (matched platform firmware) [
  | none ↦ err (no_build platform)
  | some e ↦ ok (lstrip_v e.version)
]

unfoldable pub agreed_version : Text → Text → Result UosError Text
agreed_version a b = if text_eq a b then ok a else err (app_mismatch a b)

unfoldable pub parse_app_version : List Entry → Result UosError Text
unfolding app_version_on agreed_version
parse_app_version firmware = do
  a ← app_version_on firmware (codes "uos-deb11-amd64")
  b ← app_version_on firmware (codes "uos-deb11-arm64")
  agreed_version a b

unfoldable pub check_versions_match : UosRelease → UosRelease → Result UosError (Unit {0})
check_versions_match amd64 arm64 =
    if text_eq amd64.version arm64.version
    then ok tt
    else err (mismatch amd64.version arm64.version)

-- The lines with the first one that starts so replaced; `none` if there is none.
unfoldable pub sub_line : Text → Text → List Text → Option (List Text)
sub_line prefix new [] = none
sub_line prefix new (l ∷ ls) =
    let rest = sub_line prefix new ls in
    elim (strip prefix l) [
      | some _ ↦ some (new ∷ ls)
      | none ↦ elim rest [ none ↦ none | some ks ↦ some (l ∷ ks) ]
    ]

-- `KEY=`
unfoldable pub pin_prefix : Text → Text
pin_prefix key = key ++ b'=' ∷ []

unfoldable pub sub_pin : Text → Text → Text → Result UosError Text
unfolding sub_line pin_prefix
sub_pin key value text = elim (sub_line (pin_prefix key) (pin_prefix key ++ value) (lines text)) [
  | none ↦ err (no_pin key)
  | some ls ↦ ok (unlines ls)
]

abbrev pub uos_version : Text
uos_version = codes "UOS_VERSION"

abbrev pub url_amd64 : Text
url_amd64 = codes "UOS_URL_AMD64"

abbrev pub sha256_amd64 : Text
sha256_amd64 = codes "UOS_SHA256_AMD64"

abbrev pub url_arm64 : Text
url_arm64 = codes "UOS_URL_ARM64"

abbrev pub sha256_arm64 : Text
sha256_arm64 = codes "UOS_SHA256_ARM64"

abbrev pub app_pin : Text
app_pin = codes "UOS_APP_VERSION"

-- The assignments, one after the other.
unfoldable pub sub_pins : List (Text × Text) → Text → Result UosError Text
unfolding sub_pin
sub_pins [] text = ok text
sub_pins ((key, value) ∷ pins) text = do text' ← sub_pin key value text; sub_pins pins text'

unfoldable pub rewrite_pins : Text → Text → UosRelease → UosRelease → Result UosError Text
unfolding sub_pins
rewrite_pins text version amd64 arm64 =
    sub_pins
      ((uos_version, version)
        ∷ (url_amd64, amd64.url)
        ∷ (sha256_amd64, amd64.sha256)
        ∷ (url_arm64, arm64.url)
        ∷ (sha256_arm64, arm64.sha256)
        ∷ [])
      text

-- How `README_ROW_RE` starts.
abbrev pub row_start : Text
row_start = codes "| `ghcr.io/jamesbraid/unifi-os-server` | "

unfoldable pub rewrite_readme : Text → Text → Text → Result UosError Text
rewrite_readme text version link = elim (rewrite_row row_start text version link) [
  | none ↦ err no_row
  | some t ↦ ok t
]

abbrev pub releases_url : Text
releases_url = codes "https://community.ui.com/releases"

-- `text.split("-")[0]`
unfoldable pub before_dash : Text → Text
before_dash [] = []
before_dash (c ∷ s) = let rest = before_dash s in if c == b'-' then [] else c ∷ rest
