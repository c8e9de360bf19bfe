-- ===== src/UosUpdater/Tests.antt =====
-- A new release on both platforms, and the theorem on the pins at it.
use unifi_containers.Text.Row.{rewrite_row}
use unifi_containers.Prelude.{
  ℕ, ◌≡◌, ltb, ◌==◌, refl, true, Option, some, [], ◌∷◌, ◌++◌, if◌then◌else◌,
}
use unifi_containers.Text.{Text, codes, text_eq, strip}
use unifi_containers.Packaging.{Versions}
use unifi_containers.Prelude.Results.{ok}
use unifi_containers.Text.Lines.{lines, unlines}
use unifi_containers.Text.Words.{is_space}
use unifi_containers.Updater.{is_field}
use unifi_containers.UosUpdater.{
  rewrite_pins, rewrite_readme, pin_prefix, parse_release, check_versions_match, lstrip_v,
  parse_app_version, Entry, UosRelease,
}
use unifi_containers.UosUpdater.Bump.{
  pin_or_empty, write_found, Files, Feeds, Found, found_app, app_version_moved, found_out, bump,
}
use unifi_containers.UosUpdater.Lines.{pin_of, is_line, is_line-IsLine}
use unifi_containers.UosUpdater.Written.{OnLines, Written, bump-Written}

abbrev newline : Text
newline = b'\n' ∷ []

-- Later versions have the larger number.
abbrev numbered : Versions
numbered = record {
  Key = ℕ;
  read = λ t. some (if text_eq t (codes "5.0.2") then 2 else 1);
  lt = ltb;
  eq = ◌==◌;
}

abbrev dotenv : Text → Text → Option Text
dotenv text key = pin_of key text

abbrev files : Files
files = record {
  pins =
      codes "UOS_VERSION=5.0.1"
      ++ (newline
          ++ (codes "UOS_URL_AMD64=a"
              ++ (newline
                  ++ (codes "UOS_SHA256_AMD64=b"
                      ++ (newline
                          ++ (codes "UOS_URL_ARM64=c"
                              ++ (newline
                                  ++ (codes "UOS_SHA256_ARM64=d"
                                      ++ (newline ++ codes "UOS_APP_VERSION=10.0.1-3-1")))))))));
  readme = codes "| `ghcr.io/jamesbraid/unifi-os-server` | 5.0.1 | [Release notes](x) |";
}

abbrev entry : Text → Text → Entry
entry platform version = record {
  platform = some platform;
  channel = some (codes "release");
  version = version;
  href = codes "https://example.invalid/" ++ platform;
  checksum = codes "0f";
}

abbrev feeds : Feeds
feeds = record {
  amd64 = entry (codes "linux-x64") (codes "v5.0.2") ∷ [];
  arm64 = entry (codes "linux-arm64") (codes "v5.0.2") ∷ [];
  app =
      entry (codes "uos-deb11-amd64") (codes "v10.0.1-4-1")
      ∷ entry (codes "uos-deb11-arm64") (codes "v10.0.1-4-1")
      ∷ [];
}

abbrev release_on : Text → UosRelease
release_on platform = record {
  version = codes "5.0.2";
  url = codes "https://example.invalid/" ++ platform;
  sha256 = codes "0f";
}

abbrev found : Found numbered dotenv
found = record {
  amd64 = release_on (codes "linux-x64");
  arm64 = release_on (codes "linux-arm64");
  app = codes "10.0.1-4-1";
  uos_moved = true;
  app_moved = true;
}

abbrev after : Files
after = (bump numbered dotenv true feeds files).1

on_lines :
    OnLines (release_on (codes "linux-x64")) (release_on (codes "linux-arm64")) (codes "10.0.1-4-1")
unfolding is_line
on_lines = record {
  version = is_line-IsLine (codes "5.0.2") refl;
  urls = (
    is_line-IsLine (release_on (codes "linux-x64")).url refl,
    is_line-IsLine (release_on (codes "linux-arm64")).url refl,
  );
  checksums = (is_line-IsLine (codes "0f") refl, is_line-IsLine (codes "0f") refl);
  app_version = is_line-IsLine (codes "10.0.1-4-1") refl;
}

found_here : found_out numbered dotenv feeds files ≡ ok found
unfolding found_out pin_of lines strip pin_prefix parse_release is_field text_eq
    check_versions_match lstrip_v parse_app_version app_version_moved found_app pin_or_empty
found_here = refl

bumped_here : bump numbered dotenv true feeds files ≡ (ok (some (codes "5.0.2")), after)
unfolding bump found_out pin_of lines strip pin_prefix parse_release is_field text_eq
    check_versions_match lstrip_v parse_app_version app_version_moved found_app pin_or_empty
    write_found rewrite_pins unlines rewrite_readme is_space rewrite_row
bumped_here = refl

bump-Written_example :
    (codes "5.0.2" ≡ codes "5.0.2")
    × (codes "5.0.2" ≡ codes "5.0.2")
    × Written
        (release_on (codes "linux-x64"))
        (release_on (codes "linux-arm64"))
        (codes "10.0.1-4-1")
        true
        files
        after
bump-Written_example =
    bump-Written numbered dotenv feeds files after found (codes "5.0.2") found_here on_lines
      bumped_here
