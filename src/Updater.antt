-- ===== src/Updater.antt =====
-- updaters/network.py: the pins of the Network Application in its Dockerfile, and their update.
-- A firmware record stands for the decoded fields that the program reads; downloads are parameters.
-- The replacement of `subn` is taken as it stands, which it is for texts without a backslash.
pub mod Bump
pub mod Pinned
pub mod Settled
pub mod Tests
use unifi_containers.Prelude.{
  ℕ, Bool, true, false, ◌||◌, ◌&&◌, not, ◌==◌, leb, length, Option, none, some, List, [], ◌∷◌, ◌++◌,
  ◌>>=◌, if◌then◌else◌,
}
use unifi_containers.Text.{Text, codes, text_eq}
use unifi_containers.Text.Decimal.{decimal}
use unifi_containers.Text.Lines.{lines, unlines, first_setting, replace_setting}
use unifi_containers.Pins.{pkgurl_prefix, version_in_url, truthy}

-- The fixed part of `PKGSHA_RE`.
abbrev pub pkgsha_prefix : Text
pkgsha_prefix = codes "ARG PKGSHA256="

unfoldable pub build_pkgurl : Text → Text
build_pkgurl version =
    codes "https://dl.ui.com" ++ (codes "/unifi/" ++ (version ++ codes "/unifi_sysvinit_all.deb"))

pub record Pins : Type 0 where
  pub url : Text
  pub sha256 : Text
  pub version : Text

-- `none` is the exception RuntimeError.
unfoldable pub read_pins : Text → Option Pins
read_pins text = do
  url ← first_setting pkgurl_prefix (lines text)
  sha256 ← first_setting pkgsha_prefix (lines text)
  version ← version_in_url url
  some (record { url = url; sha256 = sha256; version = version })

-- One `subn`; `none` if it has replaced nothing.
unfoldable pub rewrite_one : Text → Text → Text → Option Text
rewrite_one prefix value text = do
  ls ← replace_setting prefix (prefix ++ value) (lines text)
  some (unlines ls)

unfoldable pub rewrite_dockerfile : Text → Text → Text → Option Text
unfolding rewrite_one
rewrite_dockerfile text url sha256 = do
  first ← rewrite_one pkgurl_prefix url text
  rewrite_one pkgsha_prefix sha256 first

-- `[0-9a-f]`
unfoldable pub is_hex : ℕ → Bool
is_hex c = (leb b'0' c && leb c b'9') || (leb b'a' c && leb c b'f')

unfoldable pub all_hex : Text → Bool
all_hex [] = true
all_hex (c ∷ s) = if is_hex c then all_hex s else false

-- `re.fullmatch(r"[0-9a-f]{64}", sha)`
unfoldable pub is_sha256 : Text → Bool
unfolding all_hex
is_sha256 sha256 = if length sha256 == 64 then all_hex sha256 else false

-- The exit status of `verify` for the pins; `url_exists` asks the server.
unfoldable pub verify_pins : (Text → Bool) → Pins → ℕ
verify_pins url_exists p =
    if not (is_sha256 p.sha256)
    then 1
    else if not (text_eq p.url (build_pkgurl p.version))
    then 1
    else if not (url_exists p.url)
    then 1
    else 0

unfoldable pub verify : (Text → Bool) → Text → Option ℕ
unfolding verify_pins
verify url_exists dockerfile = do p ← read_pins dockerfile; some (verify_pins url_exists p)

-- What the program reads of a firmware record: two fields that may be absent, and the others.
pub record Firmware : Type 0 where
  pub channel : Option Text
  pub platform : Option Text
  pub major : ℕ
  pub minor : ℕ
  pub patch : ℕ
  pub checksum : Text

unfoldable pub version_of : Firmware → Text
version_of e = decimal e.major ++ (b'.' ∷ (decimal e.minor ++ (b'.' ∷ decimal e.patch)))

-- `entry.get(…) == value`
unfoldable pub is_field : Option Text → Text → Bool
is_field none value = false
is_field (some t) value = text_eq t value

-- The versions that `parse_ga_version` chooses from.
unfoldable pub ga_versions : List Firmware → List Text
ga_versions [] = []
ga_versions (e ∷ firmware) =
    let rest = ga_versions firmware in
    if is_field e.channel (codes "release") then version_of e ∷ rest else rest

-- Whether the record has the checksum that `parse_deb_sha256` looks for.
unfoldable pub is_deb : Text → Firmware → Bool
unfolding is_field
is_deb version e =
    is_field e.channel (codes "release")
    && is_field e.platform (codes "debian")
    && text_eq (version_of e) version

unfoldable pub deb_sha256 : List Firmware → Text → Option Text
unfolding is_deb
deb_sha256 [] version = none
deb_sha256 (e ∷ firmware) version =
    let rest = deb_sha256 firmware version in if is_deb version e then some e.checksum else rest

-- `parse_deb_sha256(…) or sha256_of_url(url)`; `hash` downloads and hashes.
unfoldable pub checksum_for : (Text → Text) → List Firmware → Text → Text
checksum_for hash deb version = elim (truthy (deb_sha256 deb version)) [
  | some sha256 ↦ sha256
  | none ↦ hash (build_pkgurl version)
]

-- The rewriting of the Dockerfile that `bump` does for a version.
unfoldable pub bump_dockerfile : (Text → Text) → List Firmware → Text → Text → Option Text
unfolding checksum_for
bump_dockerfile hash deb text version =
    rewrite_dockerfile text (build_pkgurl version) (checksum_for hash deb version)
