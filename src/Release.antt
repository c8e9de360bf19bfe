-- ===== src/Release.antt =====
-- release.py: the release model. A git tag names a release completely.
-- `TAG_RE` is the matcher `parse`; its groups are the fields of `Release`.
pub mod RoundTrip
pub mod Builds
pub mod Highest
pub mod Tests
use unifi_containers.Prelude.{
  ℕ, suc, ◌+◌, max, Bool, true, false, Option, none, some, List, [], ◌∷◌, ◌++◌, ◌>>=◌, leb, not,
  if◌then◌else◌,
}
use unifi_containers.Prelude.Results.{Result, ok, err}
use unifi_containers.Packaging.{Versions}
use unifi_containers.Text.{Text, codes, text_eq, strip}
use unifi_containers.Text.Decimal.{decimal, int_value}
use unifi_containers.Text.Scan.{digits1, char, dotted, at_end}

abbrev pub network : Text
network = codes "network"

abbrev pub unifi_os : Text
unifi_os = codes "unifi-os"

pub record Release : Type 0 where
  pub product : Text
  pub upstream : Text
  pub revision : ℕ

-- `IMAGES[self.product]`; `none` is the exception KeyError.
unfoldable pub image : Release → Option Text
image r =
    if text_eq r.product network
    then some (codes "ghcr.io/jamesbraid/unifi-network")
    else if text_eq r.product unifi_os
    then some (codes "ghcr.io/jamesbraid/unifi-os-server")
    else none

unfoldable pub version : Release → Text
version r = r.upstream ++ (b'-' ∷ decimal r.revision)

unfoldable pub git_tag : Release → Text
unfolding version
git_tag r = r.product ++ (b'/' ∷ version r)

-- `network|unifi-os`, with the text that follows.
unfoldable pub product_of : Text → Option (Text × Text)
product_of t = elim (strip network t) [
  | some rest ↦ some (network, rest)
  | none ↦ (do rest ← strip unifi_os t; some (unifi_os, rest))
]

-- `$`, and the release that the groups give.
unfoldable pub finish : Bool → Release → Option Release
finish true r = some r
finish false r = none

unfoldable pub parse : Text → Option Release
unfolding product_of char finish
parse t = do
  (product, r) ← product_of t
  s ← char b'/' r
  (upstream, r') ← dotted s
  s' ← char b'-' r'
  (revision, rest) ← digits1 s'
  finish (at_end rest)
      (record { product = product; upstream = upstream; revision = int_value revision })

-- `if r is not None and r.product == product`
unfoldable pub add_parsed : Text → Option Release → List Release → List Release
add_parsed product none rest = rest
add_parsed product (some r) rest = if text_eq r.product product then r ∷ rest else rest

unfoldable pub releases_for : List Text → Text → List Release
unfolding add_parsed
releases_for [] product = []
releases_for (t ∷ tags) product = add_parsed product (parse t) (releases_for tags product)

unfoldable pub with_upstream : Text → List Release → List Release
with_upstream upstream [] = []
with_upstream upstream (r ∷ rs) =
    let rest = with_upstream upstream rs in if text_eq r.upstream upstream then r ∷ rest else rest

unfoldable pub builds_of : List Text → Text → Text → List Release
unfolding releases_for with_upstream
builds_of tags product upstream = with_upstream upstream (releases_for tags product)

-- `max((r.revision for r in same), default=0)`
unfoldable pub max_revision : List Release → ℕ
max_revision [] = 0
max_revision (r ∷ rs) = max r.revision (max_revision rs)

unfoldable pub next_release : List Text → Text → Text → Release
next_release tags product upstream = record {
  product = product;
  upstream = upstream;
  revision = max_revision (builds_of tags product upstream) + 1;
}

unfoldable pub all_at_most : ℕ → List Release → Bool
all_at_most n [] = true
all_at_most n (r ∷ rs) = if leb r.revision n then all_at_most n rs else false

unfoldable pub is_highest_build : List Text → Release → Bool
is_highest_build tags r = all_at_most r.revision (builds_of tags r.product r.upstream)

-- A text that `Version` refuses.
pub data InvalidVersion : Type 0 where
  invalid_version : Text → InvalidVersion

module _ (V : Versions) where
  unfoldable pub read_version : Text → Result InvalidVersion V.Key
  read_version t = elim (V.read t) [ none ↦ err (invalid_version t) | some k ↦ ok k ]

  -- The loop of `max(pool, key=…)`: a later item replaces the best so far if its key is greater.
  unfoldable pub max_from : Release → V.Key → List Release → Result InvalidVersion Release
  unfolding version read_version
  max_from best k [] = ok best
  max_from best k (r ∷ rs) = elim (read_version (version r)) [
    | err e ↦ err e
    | ok j ↦ max_from (if V.lt k j then r else best) (if V.lt k j then j else k) rs
  ]

  unfoldable pub max_release : List Release → Result InvalidVersion (Option Release)
  unfolding max_from
  max_release [] = ok none
  max_release (r ∷ rs) = elim (read_version (version r)) [
    | err e ↦ err e
    | ok k ↦ elim (max_from r k rs) [ err e ↦ err e | ok top ↦ ok (some top) ]
  ]

  unfoldable pub highest : List Text → Text → Result InvalidVersion (Option Release)
  highest tags product = max_release (releases_for tags product)

  unfoldable pub is_highest_stable : List Text → Release → Result InvalidVersion Bool
  is_highest_stable tags r = elim (highest (tags ++ (git_tag r ∷ [])) r.product) [
    | err e ↦ err e
    | ok none ↦ ok false
    | ok (some top) ↦ elim (read_version (version top)) [
      | err e ↦ err e
      | ok j ↦ elim (read_version (version r)) [ err e ↦ err e | ok k ↦ ok (V.eq j k) ]
    ]
  ]

-- The values of the dictionary that `version_tags` returns.
pub record VersionTags : Type 0 where
  pub base : Text
  pub sim : Text
  pub seeded : Text

unfoldable pub version_tags : Release → VersionTags
version_tags r = record {
  base = r.upstream;
  sim = r.upstream ++ codes "-sim";
  seeded = r.upstream ++ codes "-seeded";
}

unfoldable pub global_tags : Bool → List Text
global_tags is_top = if is_top then codes "latest" ∷ codes "sim" ∷ codes "seeded" ∷ [] else []

unfoldable pub sliding_tags : Release → Bool → Bool → List Text
unfolding version_tags global_tags
sliding_tags r is_newest_build is_top =
    if not is_newest_build
    then []
    else (version_tags r).base ∷ (version_tags r).sim ∷ (version_tags r).seeded ∷ global_tags is_top
