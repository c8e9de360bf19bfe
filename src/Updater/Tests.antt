-- ===== src/Updater/Tests.antt =====
-- A Dockerfile with pins, and its update.
use unifi_containers.Text.Row.{
  at_line_end, past_link, past_row, past_solid, readme_row, rewrite_row, sub_row,
}
use unifi_containers.Text.Decimal.{decimal, int_value}
use unifi_containers.Text.Digits.{is_digit, digit_value, digit_in, digit_or_zero, value_from}
use unifi_containers.Text.Scan.{dotted, digits1, span_digits, char, nonempty}
use unifi_containers.Prelude.{◌≡◌, refl, true, none, some, [], ◌∷◌}
use unifi_containers.Prelude.Results.{ok}
use unifi_containers.Packaging.Numbered.{read_post, numbered, numbered-IsOrdered, read_numbers}
use unifi_containers.Text.{text_eq, Text, codes, strip}
use unifi_containers.Text.Words.{lstrip, rstrip, trim, is_space}
use unifi_containers.Text.Lines.{
  first_setting, all_solid, onto_first, solid, lines, unlines, replace_setting, setting_in,
}
use unifi_containers.Release.Tests.{ten_four_fifty, ten_four_fifty-IsVersion}
use unifi_containers.Pins.{version_in_url, version_here, truthy, pkgurl_version}
use unifi_containers.Updater.{
  ga_versions, is_field, is_deb, version_of, Firmware, checksum_for, deb_sha256, bump_dockerfile,
  build_pkgurl, read_pins, rewrite_dockerfile, rewrite_one, is_sha256, all_hex, is_hex, verify,
}
use unifi_containers.Updater.Bump.{
  due, feed_link, highest, highest_from, newer, or_empty, or_raise, parse_ga_version, write_pins,
  write_row, Downloads, Files, bump, release_notes_link, search_dotted,
}
use unifi_containers.Updater.Settled.{bump_settled}
use unifi_containers.Updater.Pinned.{verify-rewrite_dockerfile}

abbrev old_dockerfile : Text
old_dockerfile = codes "FROM a\nARG PKGURL=b\nARG PKGSHA256=c\n"

abbrev new_sha256 : Text
new_sha256 = codes "0123456789abcdef0123456789abcdef0123456789abcdef0123456789abcdef"

abbrev new_dockerfile : Text
new_dockerfile =
    codes
      "FROM a\nARG PKGURL=https://dl.ui.com/unifi/10.4.57/unifi_sysvinit_all.deb\nARG PKGSHA256=0123456789abcdef0123456789abcdef0123456789abcdef0123456789abcdef\n"

new_sha256_run : is_sha256 new_sha256 ≡ true
unfolding is_sha256 all_hex is_hex
new_sha256_run = refl

rewrite_run :
    rewrite_dockerfile old_dockerfile (build_pkgurl ten_four_fifty) new_sha256 ≡ some new_dockerfile
unfolding rewrite_dockerfile rewrite_one replace_setting lines setting_in strip is_space unlines
    build_pkgurl
rewrite_run = refl

verify-rewrite_dockerfile_example :
    (read_pins new_dockerfile
      ≡ some (record {
        url = build_pkgurl ten_four_fifty;
        sha256 = new_sha256;
        version = ten_four_fifty;
      }))
    × (pkgurl_version new_dockerfile ≡ some ten_four_fifty)
    × (verify (λ url. true) new_dockerfile ≡ some 0)
verify-rewrite_dockerfile_example =
    verify-rewrite_dockerfile (λ url. true) old_dockerfile ten_four_fifty new_sha256 new_dockerfile
      ten_four_fifty-IsVersion new_sha256_run rewrite_run refl

abbrev release : Firmware
release = record {
  channel = some (codes "release");
  platform = some (codes "debian");
  major = 10;
  minor = 4;
  patch = 57;
  checksum = new_sha256;
}

abbrev downloads : Downloads
downloads = record {
  ga =
      record {
        channel = some (codes "release-candidate");
        platform = none;
        major = 10;
        minor = 5;
        patch = 62;
        checksum = [];
      }
      ∷ release
      ∷ [];
  deb = release ∷ [];
  feed =
      some
        (record { title = some (codes "UniFi 10.4.57"); link = some (codes " https://n ") } ∷ []);
  hash = λ url. [];
}

abbrev before : Files
before = record {
  dockerfile =
      codes "ARG PKGURL=https://dl.ui.com/unifi/10.4.50/unifi_sysvinit_all.deb\nARG PKGSHA256=c\n";
  readme = codes "| `ghcr.io/jamesbraid/unifi-network` | 10.4.50 | [Release notes](x) |\n";
}

abbrev bumped : Files
bumped = record {
  dockerfile =
      codes
        "ARG PKGURL=https://dl.ui.com/unifi/10.4.57/unifi_sysvinit_all.deb\nARG PKGSHA256=0123456789abcdef0123456789abcdef0123456789abcdef0123456789abcdef\n";
  readme = codes "| `ghcr.io/jamesbraid/unifi-network` | 10.4.57 | [Release notes](https://n) |\n";
}

checksum_run : is_sha256 (checksum_for downloads.hash downloads.deb ten_four_fifty) ≡ true
unfolding is_sha256 all_hex is_hex checksum_for truthy deb_sha256 text_eq version_of decimal
checksum_run = refl

bump_run : bump numbered true downloads before ≡ (ok (some ten_four_fifty), bumped)
unfolding bump read_pins lines setting_in strip is_space read_numbers replace_setting unlines
    release_notes_link search_dotted build_pkgurl bump_dockerfile checksum_for deb_sha256
    rewrite_dockerfile rewrite_one text_eq first_setting all_solid onto_first solid version_in_url
    version_here truthy dotted digits1 span_digits char nonempty is_digit digit_value digit_in
    digit_or_zero value_from decimal int_value ga_versions is_field is_deb version_of read_post
    at_line_end past_link past_row past_solid readme_row rewrite_row sub_row lstrip rstrip trim due
    feed_link highest highest_from newer or_empty or_raise parse_ga_version write_pins write_row
bump_run = refl

bump_settled_example :
    (read_pins bumped.dockerfile
      ≡ some (record {
        url = build_pkgurl ten_four_fifty;
        sha256 = checksum_for downloads.hash downloads.deb ten_four_fifty;
        version = ten_four_fifty;
      }))
    × (bump numbered true downloads bumped ≡ (ok none, bumped))
bump_settled_example =
    bump_settled numbered numbered-IsOrdered downloads before bumped ten_four_fifty checksum_run
      bump_run
