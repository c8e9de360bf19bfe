-- ===== src/Release/Tests.antt =====
-- Releases, tags and versions for the tests, and the theorems on releases at them.
use unifi_containers.Prelude.{◌≡◌, refl, ◌↔◌, ℕ, inl, Bool, true, some, List, [], ◌∷◌, ◌++◌, Has}
use unifi_containers.Prelude.Results.{ok}
use unifi_containers.Packaging.Numbered.{
  numbered, numbered-IsOrdered, read_numbers-post, numbers_of,
}
use unifi_containers.Text.{Text, codes}
use unifi_containers.Text.Digits.{is_digit, digit_value, value_from, digit_or_zero}
use unifi_containers.Text.Decimal.{int_value}
use unifi_containers.Text.Scan.{IsNumber, IsVersion}
use unifi_containers.Release.{
  Release, network, version, git_tag, parse, releases_for, builds_of, next_release,
  is_highest_stable,
}
use unifi_containers.Release.RoundTrip.{Spells, parse_iff, parse_sound}
use unifi_containers.Release.Builds.{
  IsBuild, Has-builds_of_iff, releases_for_sound, next_release_fresh,
}
use unifi_containers.Release.Highest.{Readable, NoTagAbove, is_highest_stable_lem}

one_digit : (c : ℕ) → is_digit c ≡ true → IsNumber (c ∷ [])
one_digit c h = (λ e. cc, (h, tt))

pub two_digits : (c d : ℕ) → is_digit c ≡ true → is_digit d ≡ true → IsNumber (c ∷ d ∷ [])
two_digits c d h k = (λ e. cc, (h, (k, tt)))

abbrev pub ten_four_fifty : Text
ten_four_fifty = codes "10.4.57"

pub ten_four_fifty-IsVersion : IsVersion ten_four_fifty
unfolding is_digit digit_value
ten_four_fifty-IsVersion = record {
  major = codes "10";
  minor = codes "4";
  patch = codes "57";
  major_number = two_digits b'1' b'0' refl refl;
  minor_number = one_digit b'4' refl;
  patch_number = two_digits b'5' b'7' refl refl;
  parts = refl;
}

abbrev pub third_build : Release
third_build = record { product = network; upstream = ten_four_fifty; revision = 3 }

abbrev pub some_tags : List Text
some_tags =
    codes "network/10.4.57-3"
    ∷ codes "network/10.4.57-1"
    ∷ codes "unifi-os/5.1.21-2"
    ∷ codes "latest"
    ∷ []

pub third_build-Spells : Spells (codes "network/10.4.57-3") third_build
unfolding is_digit digit_value int_value value_from digit_or_zero
third_build-Spells = record {
  product = inl refl;
  upstream = ten_four_fifty-IsVersion;
  number = codes "3";
  number_IsNumber = one_digit b'3' refl;
  revision = refl;
  end = [];
  end_IsEnd = inl refl;
  spelling = refl;
}

pub third_build-IsBuild : IsBuild some_tags network ten_four_fifty third_build
third_build-IsBuild = record {
  tag = codes "network/10.4.57-3";
  tag_listed = inl refl;
  named = (parse_iff (codes "network/10.4.57-3") third_build).1 third_build-Spells;
  same_product = refl;
  same_upstream = refl;
}

-- `Version` reads whatever a tag names.
spelled_Readable :
    (t : Text) (r : Release)
    → parse t ≡ some r
    → (k : numbered.Key) × (numbered.read (version r) ≡ some k)
unfolding version
spelled_Readable t r h =
    let v = (parse_sound t r h).upstream in
    (numbers_of r.upstream r.revision v, read_numbers-post r.upstream r.revision v)

pub releases_for-Readable : (tags : List Text) (p : Text) → Readable numbered (releases_for tags p)
releases_for-Readable tags p s m =
    let (t, _, named, _) = releases_for_sound tags p s m in spelled_Readable t s named

pub builds_of-Readable : (tags : List Text) (p u : Text) → Readable numbered (builds_of tags p u)
builds_of-Readable tags p u s m =
    let b = (Has-builds_of_iff tags p u s).0 m in spelled_Readable b.tag s b.named

parse_iff_example :
    (parse (codes "network/10.4.57-3") ≡ some third_build)
    ↔ Spells (codes "network/10.4.57-3") third_build
parse_iff_example = parse_iff (codes "network/10.4.57-3") third_build

next_release_fresh_example :
    ¬ Has (git_tag (next_release some_tags network ten_four_fifty)) some_tags
next_release_fresh_example =
    next_release_fresh some_tags network ten_four_fifty (inl refl) ten_four_fifty-IsVersion

is_highest_stable_lem_example :
    (b : Bool) × (is_highest_stable numbered some_tags third_build ≡ ok b)
    × ((b ≡ true) ↔ NoTagAbove numbered some_tags third_build)
is_highest_stable_lem_example =
    is_highest_stable_lem numbered numbered-IsOrdered some_tags third_build (inl refl)
      ten_four_fifty-IsVersion
      (releases_for-Readable (some_tags ++ (git_tag third_build ∷ [])) network)
